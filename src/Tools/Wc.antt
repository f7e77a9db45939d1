-- ===== src/Tools/Wc.antt =====
-- busybox/wc.c
pub mod Counts
pub mod Refusal
use yaup.Base.{
  Run, ok, fault, ltb, ℕ, suc, ◌+◌, ◌%◌, ◌^◌, Bool, true, false, ◌&&◌, ◌||◌, not, List, [], ◌∷◌,
  ◌++◌, if◌then◌else◌, ◌==◌, leb,
}
use yaup.Errno.{eisdir, einval}
use yaup.Shell.Text.{text}
use yaup.Kernel.Host.{Stat}
use yaup.Tools.Os.{Os, FilePath}
use yaup.Tools.Program.{Prog, Process, ◌>>=◌, ◌>>◌, pure, exits, put, input}
use yaup.Tools.Program.Args.{asks_help, for_files}
use yaup.Tools.Program.Print.{decimal_int, next_int, run}

-- The classes of <ctype.h> in the C locale.
unfoldable pub isalnum : ℕ → Bool
isalnum c = (leb 48 c && leb c 57) || ((leb 65 c && leb c 90) || (leb 97 c && leb c 122))

unfoldable pub ispunct : ℕ → Bool
ispunct c =
    (leb 33 c && leb c 47)
    || ((leb 58 c && leb c 64) || ((leb 91 c && leb c 96) || (leb 123 c && leb c 126)))

unfoldable pub isblank : ℕ → Bool
isblank c = (c == 32) || (c == 9)

-- `if (…) n++;` on an `int`
abbrev pub count_up : {A : Type 0} → Bool → ℕ → (ℕ → Run A) → Run A
count_up true n k = next_int n k
count_up false n k = k n

unfoldable pub wc_loop : List ℕ → ℕ → ℕ → ℕ → Run (ℕ × ℕ × ℕ)
wc_loop [] bytes words lines = ok (bytes, words, lines)
wc_loop (c ∷ cs) bytes words lines =
    count_up (isalnum c || ispunct c) bytes
      (λ b. count_up (isblank c) words (λ w. count_up (c == 10) lines (λ l. wc_loop cs b w l)))

-- The three numbers that are printed.
unfoldable pub wc : List ℕ → Run (ℕ × ℕ × ℕ)
wc fp = wc_loop fp 0 0 0

-- The line that is printed.
unfoldable pub wc_line : ℕ × ℕ × ℕ → List ℕ
wc_line (bytes, words, lines) =
    decimal_int bytes ++ (32 ∷ (decimal_int words ++ (32 ∷ (decimal_int lines ++ (10 ∷ [])))))

-- `argv` is given without the name of the program, and `st` is what the structure holds at first.
module _ (o : Os) where
  unfoldable pub wc_main : Stat → List FilePath → Prog (Process o) ℕ
  wc_main st [] = do fp ← input; r ← run (wc fp); put (wc_line r); pure 0
  wc_main st (a ∷ args) =
      if asks_help (a ∷ args)
      then exits einval
      else for_files o eisdir
          (λ st' name fp. put (name ++ text ": ") >> (run (wc fp) >>= λ r. put (wc_line r))) st
          (a ∷ args)
        >> pure 0
