-- ===== src/Tools/Cmp.antt =====
-- busybox/cmp.c
pub mod First
pub mod Verdict
use yaup.Base.{
  ℕ, ◌+◌, ◌^◌, ltb, fault, Option, none, some, Run, ok, List, [], ◌∷◌, ◌++◌, if◌then◌else◌, ◌==◌,
}
use yaup.Errno.{eisdir, einval}
use yaup.Shell.Text.{text}
use yaup.Kernel.Host.{Stat}
use yaup.Tools.Os.{Os, FilePath}
use yaup.Tools.Program.{
  Prog, Process, ◌>>=◌, ◌>>◌, pure, exits, err, stat, open_read, bytes_of, put, s_isreg,
}
use yaup.Tools.Program.Print.{decimal_int, next_int, run}

-- The numbers of the byte and the line that are printed, or none when the files do not differ. `byte`
-- and `line` are of type `int`.
unfoldable pub cmp_loop : List ℕ → List ℕ → ℕ → ℕ → Run (Option (ℕ × ℕ))
cmp_loop [] [] byte line = next_int byte (λ n. ok none)
cmp_loop [] (d ∷ f2) byte line = next_int byte (λ n. ok (some (n, line)))
cmp_loop (c ∷ f1) [] byte line = next_int byte (λ n. ok (some (n, line)))
cmp_loop (c ∷ f1) (d ∷ f2) byte line = next_int byte (λ n.
    let same_line = cmp_loop f1 f2 n line in
    let next_line = next_int line (λ l. cmp_loop f1 f2 n l) in
    if c == d then (if c == 10 then next_line else same_line) else ok (some (n, line)))

unfoldable pub cmp : List ℕ → List ℕ → Run (Option (ℕ × ℕ))
cmp f1 f2 = cmp_loop f1 f2 0 0

-- The sentence that is printed.
unfoldable pub verdict : Option (ℕ × ℕ) → List ℕ
verdict none = text "doesn't differ" ++ (10 ∷ [])
verdict (some (byte, line)) =
    text "differ: char "
    ++ (decimal_int byte ++ (text ", line " ++ (decimal_int line ++ (10 ∷ []))))

module _ {o : Os} where
  -- The structure after `stat` of an argument, which must be a regular file that opens.
  unfoldable pub open_arg : Stat → FilePath → Prog (Process o) Stat
  open_arg st a = do
    r ← stat a st
    if s_isreg (r.1.st_mode)
        then (do opened ← open_read a; if opened then pure r.1 else err)
        else exits eisdir

module _ (o : Os) where
  unfoldable pub cmp_main : Stat → List FilePath → Prog (Process o) ℕ
  cmp_main st (a ∷ b ∷ []) = do
    st' ← open_arg st a
    st'' ← open_arg st' b
    f1 ← bytes_of a
    f2 ← bytes_of b
    put (a ++ (32 ∷ (b ++ (32 ∷ []))))
    r ← run (cmp f1 f2)
    put (verdict r)
    pure 0
  cmp_main st args = exits einval
