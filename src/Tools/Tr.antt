-- ===== src/Tools/Tr.antt =====
-- busybox/tr.c. A `char` is signed: as an `int` modulo 2 ^ 32, a byte from 128 on is negative.
pub mod Lookup
use yaup.Base.{ℕ, ◌+◌, ◌-◌, ◌%◌, ◌^◌, List, [], ◌∷◌, length, if◌then◌else◌, ◌==◌, ltb}
use yaup.Errno.{eisdir, einval}
use yaup.Kernel.Host.{Stat}
use yaup.Tools.Os.{Os, FilePath}
use yaup.Tools.Program.{Prog, Process, ◌>>◌, pure, exits, put}
use yaup.Tools.Program.Args.{for_files}

abbrev pub signed_char : ℕ → ℕ
signed_char b = if ltb b 128 then b else b + (2 ^ 32 - 2 ^ 8)

-- `while (i < j)` over what is left of the two strings.
unfoldable pub translate_char : List ℕ → List ℕ → ℕ → ℕ
translate_char [] str2 c = c
translate_char (a ∷ str1) [] c = c
translate_char (a ∷ str1) (b ∷ str2) c =
    translate_char str1 str2 (if c == signed_char a then signed_char b else c)

module _ {o : Os} where
  unfoldable pub translate_loop : List ℕ → List ℕ → List ℕ → Prog (Process o) (Unit {0})
  translate_loop [] str1 str2 = pure tt
  translate_loop (c ∷ fp) str1 str2 =
      put ((translate_char str1 str2 c % 256) ∷ []) >> translate_loop fp str1 str2

  unfoldable pub translate : List ℕ → List ℕ → List ℕ → Prog (Process o) (Unit {0})
  translate fp str1 str2 =
      if length str1 == length str2 then translate_loop fp str1 str2 else exits einval

module _ (o : Os) where
  unfoldable pub tr_main : Stat → List FilePath → Prog (Process o) ℕ
  tr_main st (str1 ∷ str2 ∷ a ∷ args) =
      for_files o eisdir (λ st' name fp. translate fp str1 str2) st (a ∷ args) >> pure 0
  tr_main st args = exits einval
