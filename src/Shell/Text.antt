-- ===== src/Shell/Text.antt =====
-- The C library's functions on strings that the programs call. A `char *` is the list of the bytes
-- from the pointer to the end of its object: a NUL ends the string, and a read past the last byte
-- is a fault.
pub mod Laws
use yaup.Base.{
  ℕ, zero, suc, Bool, true, false, ◌&&◌, ◌||◌, List, [], ◌∷◌, ◌++◌, if◌then◌else◌, ◌==◌, Run, ok,
  fault, take, replicate, leb, ltb, ◌+◌, ◌-◌, ◌*◌, ◌/◌, ◌%◌, ◌^◌,
}
use Prim.Native.Char.{code}
use Prim.Native.String.{String, [] as []ˢ, ◌∷◌ as ◌∷ˢ◌}

-- The bytes of a string literal, without the NUL.
unfoldable pub text : String → List ℕ
text []ˢ = []
text (c ∷ˢ s) = code c ∷ text s

-- The string that a list of bytes starts with.
unfoldable pub string_of : List ℕ → List ℕ
string_of [] = []
string_of (c ∷ cs) = let rest = string_of cs in if c == 0 then [] else c ∷ rest

-- `strcmp(s, t) == 0`, where `t` is given without its NUL.
unfoldable pub strcmp_eq : List ℕ → List ℕ → Run Bool
strcmp_eq [] t = fault
strcmp_eq (c ∷ cs) [] = ok (c == 0)
strcmp_eq (c ∷ cs) (d ∷ ds) = let rest = strcmp_eq cs ds in if c == d then rest else ok false

-- `strcmp(s, t) == 0` on two strings without their NULs.
unfoldable pub same_text : List ℕ → List ℕ → Bool
same_text [] [] = true
same_text [] (d ∷ ds) = false
same_text (c ∷ cs) [] = false
same_text (c ∷ cs) (d ∷ ds) = let rest = same_text cs ds in if c == d then rest else false

-- `strncpy` of a string into an object of `n` bytes: padded with NULs, without one when it is full.
unfoldable pub strncpy : ℕ → List ℕ → List ℕ
strncpy n s = take n (s ++ replicate n 0)

-- The tests of `strtok(s, " \t\n\r\a")`.
unfoldable pub is_delim : ℕ → Bool
is_delim c = (c == 32) || ((c == 9) || ((c == 10) || ((c == 13) || (c == 7))))

-- `strtok` skips delimiters, takes what is before the next one and goes on behind that.
unfoldable pub skip_delims : List ℕ → List ℕ
skip_delims [] = []
skip_delims (c ∷ cs) = let rest = skip_delims cs in if is_delim c then rest else c ∷ cs

unfoldable pub token_of : List ℕ → List ℕ
token_of [] = []
token_of (c ∷ cs) = let rest = token_of cs in if is_delim c then [] else c ∷ rest

unfoldable pub after_token : List ℕ → List ℕ
after_token [] = []
after_token (c ∷ cs) = let rest = after_token cs in if is_delim c then c ∷ cs else rest

-- The decimal digits of `%d`: twenty are enough for 64 bits.
unfoldable pub digits : ℕ → ℕ → List ℕ → List ℕ
digits zero n tail = tail
digits (suc fuel) n tail =
    let rest = digits fuel (n / 10) ((48 + n % 10) ∷ tail) in
    if ltb n 10 then (48 + n) ∷ tail else rest

unfoldable pub decimal : ℕ → List ℕ
decimal n = digits 20 n []

-- `(unsigned int) atoi(s)`
unfoldable pub digits_value : List ℕ → ℕ → ℕ
digits_value [] n = n
digits_value (c ∷ cs) n =
    let more = digits_value cs ((n * 10 + (c - 48)) % 2 ^ 32) in
    if leb 48 c && leb c 57 then more else n

unfoldable pub signed_value : List ℕ → ℕ
signed_value [] = 0
signed_value (c ∷ cs) =
    if c == 45
    then (2 ^ 32 - digits_value cs 0) % 2 ^ 32
    else (if c == 43 then digits_value cs 0 else digits_value (c ∷ cs) 0)

unfoldable pub atoi : List ℕ → ℕ
atoi [] = 0
atoi (c ∷ cs) =
    let rest = atoi cs in if (c == 32) || (leb 9 c && leb c 13) then rest else signed_value (c ∷ cs)

-- `strtok(s, ":")` until it gives nothing: the parts that are not empty. The part that `c` is in
-- front of, and the others.
unfoldable pub join_part : ℕ → List ℕ → List (List ℕ) → List (List ℕ)
join_part c [] parts = (c ∷ []) ∷ parts
join_part c (d ∷ cs) parts =
    if d == 58 then (c ∷ []) ∷ parts else elim parts [ [] ↦ (c ∷ []) ∷ [] | p ∷ ps ↦ (c ∷ p) ∷ ps ]

unfoldable pub parts_of : List ℕ → List (List ℕ)
parts_of [] = []
parts_of (c ∷ cs) = let rest = parts_of cs in if c == 58 then rest else join_part c cs rest
