-- ===== src/Tools/Program/Scan.antt =====
-- Reading of lines and words: `fgets` and `fscanf` with "%s".
use yaup.Base.{
  ℕ, zero, suc, Bool, true, false, ◌||◌, ◌&&◌, List, [], ◌∷◌, ◌++◌, length, drop, if◌then◌else◌,
  ◌==◌, leb, Run, ok, panic, fault, out_of_fuel,
}

-- `isspace`
abbrev pub isspace : ℕ → Bool
isspace c = (c == 32) || (leb 9 c && leb c 13)

unfoldable pub skip_space : List ℕ → List ℕ
skip_space [] = []
skip_space (c ∷ fp) = let rest = skip_space fp in if isspace c then rest else c ∷ fp

unfoldable pub word_of : List ℕ → List ℕ
word_of [] = []
word_of (c ∷ fp) = let rest = word_of fp in if isspace c then [] else c ∷ rest

-- At most `n` characters of a line, with its newline.
unfoldable pub line_of : ℕ → List ℕ → List ℕ
line_of zero fp = []
line_of (suc n) [] = []
line_of (suc n) (c ∷ fp) = let rest = line_of n fp in if c == 10 then c ∷ [] else c ∷ rest

-- Whether the end of the stream is met on the way.
unfoldable pub meets_end : ℕ → List ℕ → Bool
meets_end zero fp = false
meets_end (suc n) [] = true
meets_end (suc n) (c ∷ fp) = let rest = meets_end n fp in if c == 10 then false else rest

-- What `fgets` leaves in the buffer: at the end of the stream, what it held.
unfoldable pub fill_line : List ℕ → List ℕ → List ℕ
fill_line [] buff = buff
fill_line (c ∷ line) buff = (c ∷ line) ++ (0 ∷ drop (suc (suc (length line))) buff)

abbrev pub then_run : {A B : Type 0} → Run A → (A → Run B) → Run B
then_run (ok a) k = k a
then_run (panic m) k = panic m
then_run fault k = fault
then_run out_of_fuel k = out_of_fuel

-- A character in front of what a loop writes to the rest of its buffer.
abbrev pub push : ℕ → Run (List ℕ) → Run (List ℕ)
push c r = then_run r (λ cs. ok (c ∷ cs))
