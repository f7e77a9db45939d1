-- ===== src/Tools/Login/Match.antt =====
-- What `match` compares.
use yaup.Base.{
  ℕ, zero, suc, ◌<◌, ◌≡◌, inl, inr, refl, true, false, Bool, Bool-cases, List, [], ◌∷◌, length,
  drop, if◌then◌else◌, ◌==◌, Run, ok, panic, fault, out_of_fuel, arith,
}
use yaup.Shell.Text.{strcmp_eq, same_text}
use yaup.Shell.Text.Laws.{IsText}
use yaup.Tools.Program.Scan.{then_run, line_of, meets_end, fill_line}
use yaup.Tools.Login.{
  Search, copy_name, copy_field, shadow_loop, shadow_search, compare_field, match,
}

-- A call that succeeds has a step that succeeds.
then_run-ok :
    {A B : Type 0} (r : Run A) (k : A → Run B) {b : B}
    → then_run r k ≡ ok b
    → (a : A) × (r ≡ ok a) × (k a ≡ ok b)
then_run-ok (ok a) k e = (a, refl, e)
then_run-ok (panic m) k e = ground arith
then_run-ok fault k e = ground arith
then_run-ok out_of_fuel k e = ground arith

-- Equal strings compare alike.
strcmp_eq-same_text :
    (s u t : List ℕ)
    → IsText u
    → IsText t
    → strcmp_eq s u ≡ ok true
    → strcmp_eq s t ≡ ok (same_text u t)
unfolding strcmp_eq same_text
strcmp_eq-same_text [] u t p q e = ground arith
strcmp_eq-same_text (c ∷ s) [] [] p q e = ground arith
strcmp_eq-same_text (c ∷ s) [] (d ∷ t) p q e = ground arith
strcmp_eq-same_text (c ∷ s) (a ∷ u) [] p q e = ground arith
strcmp_eq-same_text (c ∷ s) (a ∷ u) (d ∷ t) (na, p) (nd, q) e = elim (Bool-cases (c == a)) [
  | inl h ↦ ground (arith, strcmp_eq-same_text s u t p q (ground arith))
  | inr h ↦ ground arith
]

strcmp_eq-cons :
    (n c : ℕ) (b b' u : List ℕ)
    → ((us : List ℕ) → length us < n → strcmp_eq b us ≡ ok true → strcmp_eq b' us ≡ ok true)
    → length u < suc n
    → strcmp_eq (c ∷ b) u ≡ ok true
    → strcmp_eq (c ∷ b') u ≡ ok true
unfolding strcmp_eq
strcmp_eq-cons n c b b' [] step lt e = e
strcmp_eq-cons n c b b' (d ∷ us) step lt e = elim (Bool-cases (c == d)) [
  | inl h ↦ ground (arith, step us (omega arith) (ground arith))
  | inr h ↦ ground arith
]

-- The field that is copied for the comparison is the name again.
copy_field-name :
    (n : ℕ) (line buff b b' u : List ℕ)
    → length u < n
    → copy_name n line buff ≡ ok b
    → strcmp_eq b u ≡ ok true
    → copy_field line b ≡ ok b'
    → strcmp_eq b' u ≡ ok true
unfolding copy_name copy_field strcmp_eq
copy_field-name n [] buff b b' u lt e1 e2 e3 = ground arith
copy_field-name n (c ∷ line) [] b b' u lt e1 e2 e3 = ground arith
copy_field-name zero (c ∷ line) (x ∷ buff) b b' u lt e1 e2 e3 = absurd (omega arith)
copy_field-name (suc n) (c ∷ line) (x ∷ buff) b b' u lt e1 e2 e3 = elim (Bool-cases (c == 58)) [
  | inl h ↦ ground arith
  | inr h ↦
      let (b1, f1, g1) =
        then_run-ok (copy_name n line buff) (λ cs. ok (c ∷ cs)) {b = b} (ground arith) in
      let e3' : copy_field (c ∷ line) (c ∷ b1) ≡ ok b' = ground arith in
      let (b2, f2, g2) =
        then_run-ok (copy_field line b1) (λ cs. ok (c ∷ cs)) {b = b'} (ground arith) in
      let rest =
        strcmp_eq-cons n c b1 b2 u (λ us lt' q. copy_field-name n line buff b1 b2 us lt' f1 q f2) lt
          (ground arith) in
      ground arith
]

-- The search stops when the user is found.
shadow_loop_stops :
    (fuel : ℕ) (username : List ℕ) (s : Search) (eof : Bool) (shadow : List ℕ)
    → s.found ≡ true
    → shadow_loop fuel username s eof shadow ≡ ok s
unfolding shadow_loop
shadow_loop_stops zero username s true shadow h = refl
shadow_loop_stops zero username s false shadow h = ground arith
shadow_loop_stops (suc fuel) username s true shadow h = refl
shadow_loop_stops (suc fuel) username s false shadow h = ground arith

-- What a search has that has found the user: a line of which the name was copied.
abbrev IsNamed : List ℕ → Search → Type 0
IsNamed username s =
    (old : List ℕ) × (copy_name 32 s.line old ≡ ok s.name) × (strcmp_eq s.name username ≡ ok true)

shadow_loop_found :
    (fuel : ℕ) (username : List ℕ) (s : Search) (eof : Bool) (shadow : List ℕ) (s' : Search)
    → s.found ≡ false
    → shadow_loop fuel username s eof shadow ≡ ok s'
    → s'.found ≡ true
    → IsNamed username s'
unfolding shadow_loop
shadow_loop_found zero username s eof shadow s' f e h = ground arith
shadow_loop_found (suc fuel) username s true shadow s' f e h = ground arith
shadow_loop_found (suc fuel) username s false shadow s' f e h =
    let line = fill_line (line_of 127 shadow) s.line in
    let eof = meets_end 127 shadow in
    let left = drop (length (line_of 127 shadow)) shadow in
    let next : List ℕ → Bool → Run Search = λ user same.
      shadow_loop fuel username (record { found = same; line = line; name = user }) eof left in
    let (user, c, k) =
      then_run-ok (copy_name 32 line s.name)
        (λ user. then_run (strcmp_eq user username) (next user)) {b = s'} (ground arith) in
    let (same, c', k') = then_run-ok (strcmp_eq user username) (next user) {b = s'} k in
    elim (Bool-cases same) [
      | inl p ↦
          let named : Search = record { found = same; line = line; name = user } in
          let q = shadow_loop_stops fuel username named eof left p in
          let same_search : s' ≡ named = ground arith in rw same_search (s.name, c, ground arith)
      | inr p ↦ shadow_loop_found fuel username _ eof left s' p k' h
    ]

-- Whenever `match` returns, the search of the shadow file has ended. If it has found the user, the
-- result says whether the password equals the user's name; if it has not, the result is 1. The name
-- has fewer than 32 characters, and neither it nor the password has a NUL.
pub match-same_text :
    (line buff shadow username password : List ℕ) (b : Bool)
    → IsText username
    → IsText password
    → length username < 32
    → match line buff shadow username password ≡ ok b
    → (s : Search) × (shadow_search line buff shadow username ≡ ok s)
      × (b ≡ (if s.found then same_text username password else true))
unfolding match shadow_search compare_field
match-same_text line buff shadow username password b p q lt e =
    let (s, e1, k) =
      then_run-ok (shadow_search line buff shadow username) (compare_field password) {b = b} e in
    elim (Bool-cases s.found) [
      | inl f ↦
          let (old, c, n) = shadow_loop_found _ username _ false shadow s refl e1 f in
          let (b', c', k') =
            then_run-ok (copy_field s.line s.name) (λ buff'. strcmp_eq buff' password) {b = b}
              (ground arith) in
          let r = copy_field-name 32 s.line old s.name b' username lt c n c' in
          (s, e1, ground (arith, strcmp_eq-same_text b' username password p q r))
      | inr f ↦ (s, e1, ground arith)
    ]
