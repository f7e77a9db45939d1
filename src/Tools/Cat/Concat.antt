-- ===== src/Tools/Cat/Concat.antt =====
-- `cat` prints its files one after the other.
use yaup.Base.{ℕ, ◌≡◌, ap, false, List, [], ◌∷◌, append-nil, append_assoc, sym, arith}
use yaup.Kernel.Host.{Stat}
use yaup.Errno.{eisdir}
use yaup.Tools.Os.{Os, FilePath}
use yaup.Tools.Program.{Process, done}
use yaup.Tools.Program.Args.{
  asks_help, AreFiles, any-HaveBytes, outputs, printing, for_files-outputs,
}
use yaup.Tools.Cat.{cat, cat_main}

module _ (o : Os) where
  cat-put : (fp : List ℕ) (s : Process o) → cat {o = o} fp s ≡ done tt (printing o s fp)
  unfolding cat
  cat-put [] s = ap (λ cs. done tt (record s { stdout = cs })) (sym (append-nil s.stdout))
  cat-put (c ∷ fp) s =
      ground (arith, cat-put fp (printing o s (c ∷ [])), append_assoc s.stdout (c ∷ []) fp)

  -- Of arguments that are regular files that open, `cat` prints the bytes of the files one after the
  -- other, changes nothing else and returns 0. At least one argument is given, and not only `-h`.
  pub cat_main-outputs :
      (st : Stat) (a : FilePath) (args : List FilePath) (s : Process o)
      → asks_help (a ∷ args) ≡ false
      → AreFiles o s.world (a ∷ args)
      → cat_main o st (a ∷ args) s
        ≡ done 0 (printing o s (outputs o (λ name fp. fp) s.world (a ∷ args)))
  unfolding cat_main
  cat_main-outputs st a args s nohelp all = ground (
    arith,
    for_files-outputs o eisdir (λ st' name fp. cat fp) (λ name fp. fp) (λ fp. Unit {0})
        (λ st' name fp s' u. cat-put fp s') (a ∷ args) st s all
        (any-HaveBytes o s.world (a ∷ args)),
  )
