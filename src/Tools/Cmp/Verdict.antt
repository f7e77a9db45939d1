-- ===== src/Tools/Cmp/Verdict.antt =====
-- The two files that `cmp` compares.
use yaup.Base.{ℕ, Option, ok, ◌≡◌, [], ◌∷◌, ◌++◌, append_assoc, arith}
use yaup.Kernel.Host.{Stat}
use yaup.Tools.Os.{Os, FilePath}
use yaup.Tools.Program.{Process, done}
use yaup.Tools.Program.Args.{IsFile, printing}
use yaup.Tools.Cmp.{cmp, verdict, open_arg, cmp_main}

module _ (o : Os) where
  open_arg-st :
      (st : Stat) (a : FilePath) (s : Process o)
      → (i : IsFile o s.world a) → open_arg {o = o} st a s ≡ done i.st s
  unfolding open_arg
  open_arg-st st a s i = ground (arith, i.found, i.regular, i.opens)

  -- Of two regular files that open, `cmp` prints the names and what the comparison of their bytes
  -- says, when no counter overflows, and returns 0.
  pub cmp_main-verdict :
      (st : Stat) (a b : FilePath) (r : Option (ℕ × ℕ)) (s : Process o)
      → IsFile o s.world a
      → IsFile o s.world b
      → cmp (o.bytes s.world a) (o.bytes s.world b) ≡ ok r
      → cmp_main o st (a ∷ b ∷ []) s
        ≡ done 0 (printing o s ((a ++ (32 ∷ (b ++ (32 ∷ [])))) ++ verdict r))
  unfolding cmp_main
  cmp_main-verdict st a b r s i j compared = ground (
    arith,
    open_arg-st st a s i,
    open_arg-st i.st b s j,
    append_assoc s.stdout (a ++ (32 ∷ (b ++ (32 ∷ [])))) (verdict r),
  )
