-- ===== src/Shell/Env/Scan.antt =====
-- The searches of the environment's table.
use yaup.Base.{
  ℕ, suc, ◌+◌, ◌<◌, ◌≡◌, refl, sym, ap, ◌∙◌, Bool, true, false, Option, none, some, List, [], ◌∷◌,
  if◌then◌else◌, length, set, Run, ok, panic, fault, out_of_fuel, arith,
}
use yaup.Shell.Text.{strcmp_eq}
use yaup.Shell.Env.{empty, named, set_scan, find_scan}

-- `set_scan`, at an entry whose comparison gives `r`.
set_scan-entry :
    (r : Run Bool) (bytes : List ℕ) (names : List (Option (List ℕ))) (i : ℕ) (name : List ℕ)
    → strcmp_eq bytes name ≡ r
    → set_scan (some bytes ∷ names) i name ≡ elim r [
      | ok same ↦ if same then ok (named i) else set_scan names (i + 1) name
      | panic m ↦ panic m
      | fault ↦ fault
      | out_of_fuel ↦ out_of_fuel
    ]
unfolding set_scan
set_scan-entry r bytes names i name e = ground arith

find_scan-entry :
    (r : Run Bool) (bytes : List ℕ) (names : List (Option (List ℕ))) (i : ℕ) (name : List ℕ)
    → strcmp_eq bytes name ≡ r
    → find_scan (some bytes ∷ names) i name ≡ elim r [
      | ok same ↦ if same then ok (some i) else find_scan names (i + 1) name
      | panic m ↦ panic m
      | fault ↦ fault
      | out_of_fuel ↦ out_of_fuel
    ]
unfolding find_scan
find_scan-entry r bytes names i name e = ground arith

-- The search stops at the null entry `k`, where `find_scan` faults; a name that is put there is
-- found.
abbrev pub IsFree : List (Option (List ℕ)) → ℕ → List ℕ → ℕ → Type 0
IsFree names i name k =
    (n : ℕ) × (k ≡ i + n)
    × (n < length names)
    × ((slot : List ℕ)
        → strcmp_eq slot name ≡ ok true
        → find_scan (set names n (some slot)) i name ≡ ok (some k))
    × (find_scan names i name ≡ fault)

abbrev pub IsFound : List (Option (List ℕ)) → ℕ → List ℕ → ℕ → Type 0
IsFound names i name k =
    (n : ℕ) × (k ≡ i + n) × (n < length names) × (find_scan names i name ≡ ok (some k))

IsFree-next :
    (r : Run Bool) (bytes : List ℕ) (names : List (Option (List ℕ))) (i : ℕ) (name : List ℕ) (k : ℕ)
    → strcmp_eq bytes name ≡ r
    → (set_scan names (i + 1) name ≡ ok (empty k) → IsFree names (i + 1) name k)
    → set_scan (some bytes ∷ names) i name ≡ ok (empty k)
    → IsFree (some bytes ∷ names) i name k
IsFree-next (ok true) bytes names i name k e ih h =
    absurd (ground (arith, set_scan-entry (ok true) bytes names i name e))
IsFree-next (ok false) bytes names i name k e ih h =
    let (n, q, lt, put, null) = ih (sym (set_scan-entry (ok false) bytes names i name e) ∙ h) in
    (
      suc n,
      omega arith,
      omega arith,
      λ slot m. find_scan-entry (ok false) bytes (set names n (some slot)) i name e ∙ put slot m,
      find_scan-entry (ok false) bytes names i name e ∙ null,
    )
IsFree-next (panic m) bytes names i name k e ih h =
    absurd (ground (arith, set_scan-entry (panic m) bytes names i name e))
IsFree-next fault bytes names i name k e ih h =
    absurd (ground (arith, set_scan-entry fault bytes names i name e))
IsFree-next out_of_fuel bytes names i name k e ih h =
    absurd (ground (arith, set_scan-entry out_of_fuel bytes names i name e))

pub set_scan-IsFree :
    (names : List (Option (List ℕ))) (i : ℕ) (name : List ℕ) (k : ℕ)
    → set_scan names i name ≡ ok (empty k)
    → IsFree names i name k
unfolding set_scan find_scan
set_scan-IsFree [] i name k h = ground arith
set_scan-IsFree (none ∷ names) i name k h =
    let here : k ≡ i = ground arith in (0, omega arith, omega arith, λ slot m. ground arith, refl)
set_scan-IsFree (some bytes ∷ names) i name k h =
    IsFree-next (strcmp_eq bytes name) bytes names i name k refl
      (set_scan-IsFree names (i + 1) name k) h

IsFound-next :
    (r : Run Bool) (bytes : List ℕ) (names : List (Option (List ℕ))) (i : ℕ) (name : List ℕ) (k : ℕ)
    → strcmp_eq bytes name ≡ r
    → (set_scan names (i + 1) name ≡ ok (named k) → IsFound names (i + 1) name k)
    → set_scan (some bytes ∷ names) i name ≡ ok (named k)
    → IsFound (some bytes ∷ names) i name k
IsFound-next (ok true) bytes names i name k e ih h =
    let here : k ≡ i = ground (arith, set_scan-entry (ok true) bytes names i name e) in
    (
      0,
      omega arith,
      omega arith,
      find_scan-entry (ok true) bytes names i name e ∙ ap (λ j. ok (some j)) (sym here),
    )
IsFound-next (ok false) bytes names i name k e ih h =
    let (n, q, lt, same) = ih (sym (set_scan-entry (ok false) bytes names i name e) ∙ h) in
    (suc n, omega arith, omega arith, find_scan-entry (ok false) bytes names i name e ∙ same)
IsFound-next (panic m) bytes names i name k e ih h =
    absurd (ground (arith, set_scan-entry (panic m) bytes names i name e))
IsFound-next fault bytes names i name k e ih h =
    absurd (ground (arith, set_scan-entry fault bytes names i name e))
IsFound-next out_of_fuel bytes names i name k e ih h =
    absurd (ground (arith, set_scan-entry out_of_fuel bytes names i name e))

pub set_scan-IsFound :
    (names : List (Option (List ℕ))) (i : ℕ) (name : List ℕ) (k : ℕ)
    → set_scan names i name ≡ ok (named k)
    → IsFound names i name k
unfolding set_scan find_scan
set_scan-IsFound [] i name k h = ground arith
set_scan-IsFound (none ∷ names) i name k h = ground arith
set_scan-IsFound (some bytes ∷ names) i name k h =
    IsFound-next (strcmp_eq bytes name) bytes names i name k refl
      (set_scan-IsFound names (i + 1) name k) h
