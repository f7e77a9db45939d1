-- ===== src/Base/Sublists.antt =====
-- What `take` keeps of an array that is written or extended.
use Prim.Native.Nat.{ℕ, zero, suc, ◌≤◌, ◌<◌}
use mathlib.Core.Path.{◌≡◌, refl, ap}
use mathlib.Core.List.{List, [], ◌∷◌, ◌++◌}
use mathlib.Core.Option.{some}
use native.Mathlib.Omega.{arith}
use yaup.Base.Lists.{length, get_elem?, set, take, drop}

module _ {ℓ} {A : Type ℓ} where
  pub take_all : (n : ℕ) (xs : List A) → length xs ≤ n → take n xs ≡ xs
  take_all zero [] le = refl
  take_all zero (x ∷ xs) le = ground arith
  take_all (suc n) [] le = refl
  take_all (suc n) (x ∷ xs) le = ap (λ r. x ∷ r) (take_all n xs (omega arith))

  pub take-append_left : (n : ℕ) (xs ys : List A) → n ≤ length xs → take n (xs ++ ys) ≡ take n xs
  take-append_left zero xs ys le = refl
  take-append_left (suc n) [] ys le = ground arith
  take-append_left (suc n) (x ∷ xs) ys le = ap (λ r. x ∷ r) (take-append_left n xs ys (omega arith))

  pub take-set_next :
      (n : ℕ) (xs : List A) (v : A)
      → n < length xs
      → take (suc n) (set xs n v) ≡ take n xs ++ (v ∷ [])
  take-set_next n [] v lt = ground arith
  take-set_next zero (x ∷ xs) v lt = refl
  take-set_next (suc n) (x ∷ xs) v lt = ap (λ r. x ∷ r) (take-set_next n xs v (omega arith))

  pub take-set_past : (n : ℕ) (xs : List A) (v : A) → take n (set xs n v) ≡ take n xs
  take-set_past zero xs v = refl
  take-set_past (suc n) [] v = refl
  take-set_past (suc n) (x ∷ xs) v = ap (λ r. x ∷ r) (take-set_past n xs v)

  pub get_elem?_inside : (xs : List A) (i : ℕ) → i < length xs → (x : A) × (get_elem? xs i ≡ some x)
  get_elem?_inside [] i lt = ground arith
  get_elem?_inside (x ∷ xs) zero lt = (x, refl)
  get_elem?_inside (x ∷ xs) (suc i) lt = get_elem?_inside xs i (omega arith)

  pub take-append_drop : (n : ℕ) (xs : List A) → take n xs ++ drop n xs ≡ xs
  take-append_drop zero xs = refl
  take-append_drop (suc n) [] = refl
  take-append_drop (suc n) (x ∷ xs) = ap (λ r. x ∷ r) (take-append_drop n xs)

  pub drop-set_before : (n i : ℕ) (xs : List A) (v : A) → i < n → drop n (set xs i v) ≡ drop n xs
  drop-set_before zero i xs v lt = ground arith
  drop-set_before (suc n) i [] v lt = refl
  drop-set_before (suc n) zero (x ∷ xs) v lt = refl
  drop-set_before (suc n) (suc i) (x ∷ xs) v lt = drop-set_before n i xs v (omega arith)
