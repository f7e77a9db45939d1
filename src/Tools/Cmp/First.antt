-- ===== src/Tools/Cmp/First.antt =====
-- What `cmp` reports.
use yaup.Base.{
  ℕ, suc, ◌+◌, ◌^◌, ◌<◌, ◌≤◌, min, length, ok, ◌≡◌, ◌≢◌, refl, ap, ap₂, ◌⊎◌, none, some, List, [],
  ◌∷◌, if◌then◌else◌, ◌==◌, ==_refl, ==_ne, take, get_elem?, count_if, arith, inl, inr, subst,
}
use native.Mathlib.Decide.{ℕ_discrete}
use yaup.Tools.Cmp.{cmp_loop, cmp}

-- The files agree in `n` bytes and differ in the next.
abbrev pub IsFirst : List ℕ → List ℕ → ℕ → Type 0
IsFirst f1 f2 n = (take n f1 ≡ take n f2) × (get_elem? f1 n ≢ get_elem? f2 n)

abbrev pub newlines : List ℕ → ℕ
newlines cs = count_if (λ c. c == 10) cs

-- Equal, or a first difference.
abbrev pub Compared : List ℕ → List ℕ → ℕ → ℕ → Type 0
Compared f1 f2 byte line =
    ((f1 ≡ f2) × (cmp_loop f1 f2 byte line ≡ ok none))
    ⊎ ((n : ℕ) × IsFirst f1 f2 n
        × (cmp_loop f1 f2 byte line ≡ ok (some (byte + n + 1, line + newlines (take n f1)))))

IsFirst-next :
    (c : ℕ) (f1 f2 : List ℕ) (n : ℕ) → IsFirst f1 f2 n → IsFirst (c ∷ f1) (c ∷ f2) (suc n)
IsFirst-next c f1 f2 n (same, differ) = (ap (λ r. c ∷ r) same, differ)

cmp_loop-Compared :
    (f1 f2 : List ℕ) (byte line : ℕ)
    → line ≤ byte
    → byte + min (length f1) (length f2) + 1 < 2 ^ 31
    → Compared f1 f2 byte line
unfolding cmp_loop
cmp_loop-Compared [] [] byte line le small = inl (refl, ground arith)
cmp_loop-Compared [] (d ∷ f2) byte line le small = inr (0, (refl, λ e. ground arith), ground arith)
cmp_loop-Compared (c ∷ f1) [] byte line le small = inr (0, (refl, λ e. ground arith), ground arith)
cmp_loop-Compared (c ∷ f1) (d ∷ f2) byte line le small = elim (ℕ_discrete c d) [
  | no n ↦ inr (0, (refl, λ e. n (ground arith)), ground (arith, ==_ne c d n))
  | yes p ↦
      let line' = if c == 10 then line + 1 else line in
      elim (cmp_loop-Compared f1 f2 (byte + 1) line' (ground arith) (omega arith)) [
        | inl (same, r) ↦ inl (ap₂ (λ x xs. x ∷ xs) p same, ground (arith, ==_refl c))
        | inr (n, first, r) ↦ inr (
          suc n,
          subst (λ x. IsFirst (c ∷ f1) (x ∷ f2) (suc n)) p (IsFirst-next c f1 f2 n first),
          ground (arith, ==_refl c),
        )
      ]
]

-- For two files of which one has less than 2 ^ 31 - 1 bytes, `cmp` reports nothing exactly if they are
-- equal. For others it reports the number of the first byte that differs, from 1, and the number of
-- newlines before it.
pub cmp_lem :
    (f1 f2 : List ℕ)
    → min (length f1) (length f2) + 1 < 2 ^ 31
    → ((f1 ≡ f2) × (cmp f1 f2 ≡ ok none))
      ⊎ ((n : ℕ) × IsFirst f1 f2 n × (cmp f1 f2 ≡ ok (some (n + 1, newlines (take n f1)))))
unfolding cmp
cmp_lem f1 f2 small = elim (cmp_loop-Compared f1 f2 0 0 (omega arith) (omega arith)) [
  | inl e ↦ inl e
  | inr (n, first, r) ↦ inr (n, first, ground arith)
]
