-- ===== src/Shell/Text/Laws.antt =====
-- Strings and the objects that hold them.
use yaup.Base.{
  ℕ, zero, suc, ◌<◌, ◌≡◌, ◌≢◌, refl, true, List, [], ◌∷◌, ◌++◌, ◌==◌, ==_ne, ==_refl, Bool-cases,
  inl, inr, length, take, replicate, ok, arith,
}
use yaup.Shell.Text.{string_of, strcmp_eq, strncpy}

-- No NUL.
abbrev pub IsText : List ℕ → Type 0
IsText [] = Unit {0}
IsText (c ∷ cs) = (c ≢ 0) × IsText cs

pub string_of-IsText : (s : List ℕ) → IsText (string_of s)
unfolding string_of
string_of-IsText [] = tt
string_of-IsText (c ∷ cs) = elim (Bool-cases (c == 0)) [
  | inl e ↦ rw e tt
  | inr e ↦ rw e (ground arith, string_of-IsText cs)
]

pub append-IsText : (s t : List ℕ) → IsText s → IsText t → IsText (s ++ t)
append-IsText [] t p q = q
append-IsText (c ∷ s) t (n, p) q = (n, append-IsText s t p q)

-- A string is what is before its NUL.
pub string_of-append : (s rest : List ℕ) → IsText s → string_of (s ++ (0 ∷ rest)) ≡ s
unfolding string_of
string_of-append [] rest t = refl
string_of-append (c ∷ s) rest (n, t) = ground (arith, ==_ne c 0 n, string_of-append s rest t)

strcmp_eq-take :
    (s : List ℕ) (m k : ℕ)
    → length s < m
    → 0 < k
    → strcmp_eq (take m (s ++ replicate k 0)) s ≡ ok true
unfolding strcmp_eq
strcmp_eq-take s zero k lt pos_k = ground arith
strcmp_eq-take s (suc m) zero lt pos_k = ground arith
strcmp_eq-take [] (suc m) (suc k) lt pos_k = refl
strcmp_eq-take (c ∷ s) (suc m) (suc k) lt pos_k =
    ground (arith, ==_refl c, strcmp_eq-take s m (suc k) (omega arith) pos_k)

-- A string that fits with its NUL is found again.
pub strcmp_eq-strncpy : (n : ℕ) (s : List ℕ) → length s < n → strcmp_eq (strncpy n s) s ≡ ok true
unfolding strncpy
strcmp_eq-strncpy n s lt = strcmp_eq-take s n n lt (omega arith)

-- Bytes with a NUL among them.
abbrev pub IsString : List ℕ → Type 0
IsString bytes = (rest : List ℕ) × (bytes ≡ string_of bytes ++ (0 ∷ rest))

abbrev pub AreStrings : List (List ℕ) → Type 0
AreStrings [] = Unit {0}
AreStrings (b ∷ bs) = IsString b × AreStrings bs
