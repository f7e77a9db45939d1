-- ===== src/Tools/Tr/Lookup.antt =====
-- What `tr` makes of a character.
use yaup.Base.{
  ℕ, ◌<◌, ◌≡◌, ◌≢◌, refl, Bool-cases, inl, inr, none, some, List, [], ◌∷◌, length, get_or,
  find_index, ◌==◌, arith,
}
use yaup.Tools.Tr.{translate_char}

-- The character at the place of the first one that equals `c`, or `c`.
unfoldable pub lookup : List ℕ → List ℕ → ℕ → ℕ
lookup str1 str2 c = elim (find_index (λ a. a == c) str1) [ none ↦ c | some i ↦ get_or str2 i c ]

-- Characters of ASCII.
abbrev pub AreAscii : List ℕ → Type 0
AreAscii [] = Unit {0}
AreAscii (c ∷ cs) = (c < 128) × AreAscii cs

abbrev pub Lacks : List ℕ → ℕ → Type 0
Lacks [] c = Unit {0}
Lacks (a ∷ cs) c = (a ≢ c) × Lacks cs c

-- No character of the second string is in the first.
abbrev pub AreApart : List ℕ → List ℕ → Type 0
AreApart str1 [] = Unit {0}
AreApart str1 (b ∷ str2) = Lacks str1 b × AreApart str1 str2

translate_char-Lacks :
    (str1 str2 : List ℕ) (c : ℕ) → AreAscii str1 → Lacks str1 c → translate_char str1 str2 c ≡ c
unfolding translate_char
translate_char-Lacks [] str2 c p q = refl
translate_char-Lacks (a ∷ str1) [] c p q = refl
translate_char-Lacks (a ∷ str1) (b ∷ str2) c (lt, p) (ne, q) =
    ground (arith, translate_char-Lacks str1 str2 c p q)

AreApart-tail : (a : ℕ) (str1 str2 : List ℕ) → AreApart (a ∷ str1) str2 → AreApart str1 str2
AreApart-tail a str1 [] p = tt
AreApart-tail a str1 (b ∷ str2) ((ne, l), p) = (l, AreApart-tail a str1 str2 p)

-- If both strings are ASCII of one length and no character of the second is in the first, `tr` turns
-- a character that the first string has into the one at the same place of the second, by its first
-- occurrence, and leaves the others.
pub translate_char-lookup :
    (str1 str2 : List ℕ) (c : ℕ)
    → AreAscii str1
    → AreAscii str2
    → length str1 ≡ length str2
    → AreApart str1 str2
    → translate_char str1 str2 c ≡ lookup str1 str2 c
unfolding translate_char lookup find_index
translate_char-lookup [] str2 c p q l apart = refl
translate_char-lookup (a ∷ str1) [] c p q l apart = absurd (omega arith)
translate_char-lookup (a ∷ str1) (b ∷ str2) c (lt, p) (lt', q) l ((ne, lack), apart) =
    elim (Bool-cases (a == c)) [
      | inl e ↦ ground (arith, translate_char-Lacks str1 str2 b p lack)
      | inr e ↦ ground (
        arith,
        translate_char-lookup str1 str2 c p q (omega arith) (AreApart-tail a str1 str2 apart),
      )
    ]
