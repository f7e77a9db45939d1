-- ===== src/Base/Lists.antt =====
-- C arrays as lists with native indices, and the first index that passes a test.
use Prim.Native.Nat.{ℕ, zero, suc, ◌+◌, ◌-◌, ◌≤◌, ◌<◌, min}
use mathlib.Core.Path.{◌≡◌, refl, sym, ap, ◌∙◌}
use mathlib.Core.Logic.{◌≢◌, ◌⊎◌, inl, inr}
use mathlib.Core.Bool.{Bool, true, false}
use mathlib.Core.List.{List, [], ◌∷◌, ◌++◌}
use mathlib.Core.Option.{Option, none, some}
use native.Mathlib.Decide.{ℕ_discrete}
use native.Mathlib.Omega.{arith}
use yaup.Base.Tests.{if◌then◌else◌, Bool-cases}

abbrev pub bump : Option ℕ → Option ℕ
bump none = none
bump (some i) = some (suc i)

module _ {ℓ} {A : Type ℓ} where
  abbrev pub length : List A → ℕ
  length [] = 0
  length (x ∷ xs) = suc (length xs)

  abbrev pub get_elem? : List A → ℕ → Option A
  get_elem? [] i = none
  get_elem? (x ∷ xs) zero = some x
  get_elem? (x ∷ xs) (suc i) = get_elem? xs i

  -- A write out of bounds changes nothing.
  abbrev pub set : List A → ℕ → A → List A
  set [] i v = []
  set (x ∷ xs) zero v = v ∷ xs
  set (x ∷ xs) (suc i) v = x ∷ set xs i v

  abbrev pub get_or : List A → ℕ → A → A
  get_or [] i d = d
  get_or (x ∷ xs) zero d = x
  get_or (x ∷ xs) (suc i) d = get_or xs i d

  abbrev pub take : ℕ → List A → List A
  take zero xs = []
  take (suc n) [] = []
  take (suc n) (x ∷ xs) = x ∷ take n xs

  abbrev pub drop : ℕ → List A → List A
  drop zero xs = xs
  drop (suc n) [] = []
  drop (suc n) (x ∷ xs) = drop n xs

  abbrev pub replicate : ℕ → A → List A
  replicate zero a = []
  replicate (suc n) a = a ∷ replicate n a

  -- The first index whose element passes the test.
  unfoldable pub find_index : (A → Bool) → List A → Option ℕ
  find_index p [] = none
  find_index p (x ∷ xs) = if p x then some 0 else bump (find_index p xs)

  -- How many elements pass the test.
  abbrev pub count_if : (A → Bool) → List A → ℕ
  count_if p [] = 0
  count_if p (x ∷ xs) = if p x then suc (count_if p xs) else count_if p xs

module _ {ℓ} {A : Type ℓ} where
  pub length-set : (xs : List A) (i : ℕ) (v : A) → length (set xs i v) ≡ length xs
  length-set [] i v = refl
  length-set (x ∷ xs) zero v = refl
  length-set (x ∷ xs) (suc i) v = ap suc (length-set xs i v)

  pub get_elem?-set_self :
      (xs : List A) (i : ℕ) (v : A) {x : A}
      → get_elem? xs i ≡ some x
      → get_elem? (set xs i v) i ≡ some v
  get_elem?-set_self [] i v h = ground arith
  get_elem?-set_self (x ∷ xs) zero v h = refl
  get_elem?-set_self (x ∷ xs) (suc i) v h = get_elem?-set_self xs i v h

  pub get_elem?-set_ne :
      (xs : List A) (i j : ℕ) (v : A) → i ≢ j → get_elem? (set xs i v) j ≡ get_elem? xs j
  get_elem?-set_ne [] i j v h = refl
  get_elem?-set_ne (x ∷ xs) zero zero v h = absurd (h refl)
  get_elem?-set_ne (x ∷ xs) zero (suc j) v h = refl
  get_elem?-set_ne (x ∷ xs) (suc i) zero v h = refl
  get_elem?-set_ne (x ∷ xs) (suc i) (suc j) v h = get_elem?-set_ne xs i j v (λ e. h (ap suc e))

  pub set-get_elem? : (xs : List A) (i : ℕ) {x : A} → get_elem? xs i ≡ some x → set xs i x ≡ xs
  set-get_elem? [] i h = refl
  set-get_elem? (y ∷ xs) zero h = ground arith
  set-get_elem? (y ∷ xs) (suc i) h = ap (λ r. y ∷ r) (set-get_elem? xs i h)

  pub set-set : (xs : List A) (i : ℕ) (v w : A) → set (set xs i v) i w ≡ set xs i w
  set-set [] i v w = refl
  set-set (x ∷ xs) zero v w = refl
  set-set (x ∷ xs) (suc i) v w = ap (λ r. x ∷ r) (set-set xs i v w)

  -- A look into an array after a write to it.
  pub get_elem?-set_cases :
      (xs : List A) (i j : ℕ) (v x : A) {old : A}
      → get_elem? xs i ≡ some old
      → get_elem? (set xs i v) j ≡ some x
      → ((i ≡ j) × (v ≡ x)) ⊎ ((i ≢ j) × (get_elem? xs j ≡ some x))
  get_elem?-set_cases xs i j v x g e = elim (ℕ_discrete i j) [
    | yes p ↦ inl (p, ground (arith, get_elem?-set_self xs i v g))
    | no n ↦ inr (n, sym (get_elem?-set_ne xs i j v n) ∙ e)
  ]

  pub length-append : (xs ys : List A) → length (xs ++ ys) ≡ length xs + length ys
  length-append [] ys = omega arith
  length-append (x ∷ xs) ys = omega (arith, length-append xs ys)

-- What the first index that passes says of the list.
module _ {ℓ} {A : Type ℓ} (p : A → Bool) where
  pub find_index_found :
      (xs : List A) (i : ℕ)
      → find_index p xs ≡ some i
      → (x : A) × (get_elem? xs i ≡ some x) × (p x ≡ true)
  unfolding find_index
  find_index_found [] i h = ground arith
  find_index_found (x ∷ xs) zero h = (x, refl, ground arith)
  find_index_found (x ∷ xs) (suc i) h = find_index_found xs i (ground arith)

  pub find_index_miss :
      (xs : List A) (i : ℕ) {x : A} → find_index p xs ≡ none → get_elem? xs i ≡ some x → p x ≡ false
  unfolding find_index
  find_index_miss [] i h e = ground arith
  find_index_miss (x ∷ xs) zero h e = ground arith
  find_index_miss (x ∷ xs) (suc i) h e = find_index_miss xs i (ground arith) e

  pub find_index_first :
      (xs : List A) (i j : ℕ) {x : A}
      → find_index p xs ≡ some i
      → j < i
      → get_elem? xs j ≡ some x
      → p x ≡ false
  unfolding find_index
  find_index_first [] i j h l e = ground arith
  find_index_first (x ∷ xs) i zero h l e = ground arith
  find_index_first (x ∷ xs) zero (suc j) h l e = absurd (omega arith)
  find_index_first (x ∷ xs) (suc i) (suc j) h l e =
      find_index_first xs i j (ground arith) (omega arith) e

abbrev pub to_ℕ : Bool → ℕ
to_ℕ true = 1
to_ℕ false = 0

module _ {ℓ} {A : Type ℓ} (p : A → Bool) where
  pub find_index_of_count : (xs : List A) → 0 < count_if p xs → (i : ℕ) × (find_index p xs ≡ some i)
  unfolding find_index
  find_index_of_count [] h = absurd (omega arith)
  find_index_of_count (x ∷ xs) h = elim (Bool-cases (p x)) [
    | inl e ↦ (0, rw e)
    | inr e ↦ let (i, q) = find_index_of_count xs (ground arith) in (suc i, ground arith)
  ]

  pub count_if-set :
      (xs : List A) (i : ℕ) (y : A) {x : A}
      → get_elem? xs i ≡ some x
      → count_if p (set xs i y) + to_ℕ (p x) ≡ count_if p xs + to_ℕ (p y)
  count_if-set [] i y h = ground arith
  count_if-set (z ∷ xs) zero y h = ground arith
  count_if-set (z ∷ xs) (suc i) y h = ground (arith, count_if-set xs i y h)

pub get_elem?-get_or {ℓ} :
    {A : Type ℓ} (xs : List A) (i : ℕ) (d : A)
    → i < length xs
    → get_elem? xs i ≡ some (get_or xs i d)
get_elem?-get_or [] i d h = absurd (omega arith)
get_elem?-get_or (x ∷ xs) zero d h = refl
get_elem?-get_or (x ∷ xs) (suc i) d h = get_elem?-get_or xs i d (omega arith)

module _ {ℓ} {A : Type ℓ} where
  pub take-append_length : (xs ys : List A) → take (length xs) (xs ++ ys) ≡ xs
  take-append_length [] ys = refl
  take-append_length (x ∷ xs) ys = ap (λ r. x ∷ r) (take-append_length xs ys)

  pub drop-take_append : (i : ℕ) (xs ys : List A) → i ≤ length xs → drop i (take i xs ++ ys) ≡ ys
  drop-take_append zero xs ys h = refl
  drop-take_append (suc i) [] ys h = absurd (omega arith)
  drop-take_append (suc i) (x ∷ xs) ys h = drop-take_append i xs ys (omega arith)

  pub length-take : (n : ℕ) (xs : List A) → length (take n xs) ≡ min n (length xs)
  length-take zero xs = omega arith
  length-take (suc n) [] = omega arith
  length-take (suc n) (x ∷ xs) = omega (arith, length-take n xs)

  pub length-drop : (n : ℕ) (xs : List A) → length (drop n xs) ≡ length xs - n
  length-drop zero xs = omega arith
  length-drop (suc n) [] = omega arith
  length-drop (suc n) (x ∷ xs) = omega (arith, length-drop n xs)

  pub length-take_append_drop :
      (i : ℕ) (xs ys : List A)
      → i + length ys ≤ length xs
      → length (take i xs ++ (ys ++ drop (i + length ys) xs)) ≡ length xs
  length-take_append_drop i xs ys h =
      let rest = drop (i + length ys) xs in
      omega (
        arith,
        length-append (take i xs) (ys ++ rest),
        length-append ys rest,
        length-take i xs,
        length-drop (i + length ys) xs,
      )

module _ {ℓ} {A : Type ℓ} where
  pub get_elem?_past : (xs : List A) (i : ℕ) → length xs ≤ i → get_elem? xs i ≡ none
  get_elem?_past [] i h = refl
  get_elem?_past (x ∷ xs) zero h = absurd (omega arith)
  get_elem?_past (x ∷ xs) (suc i) h = get_elem?_past xs i (omega arith)

  pub get_or-set :
      (xs : List A) (i : ℕ) (v d : A) {x : A}
      → get_elem? xs i ≡ some x
      → get_or (set xs i v) i d ≡ v
  get_or-set [] i v d h = ground arith
  get_or-set (x ∷ xs) zero v d h = refl
  get_or-set (x ∷ xs) (suc i) v d h = get_or-set xs i v d h
