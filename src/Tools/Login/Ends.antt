-- ===== src/Tools/Login/Ends.antt =====
-- The searches of the passwd and the shadow file end.
use yaup.Base.{
  ℕ, zero, suc, ◌<◌, ◌≡◌, ◌≢◌, ◌⊎◌, inl, inr, refl, true, false, Bool, Bool-cases, List, [], ◌∷◌,
  length, drop, length-drop, Run, ok, panic, fault, out_of_fuel, arith,
}
use yaup.Shell.Text.{strcmp_eq}
use yaup.Tools.Program.Scan.{then_run, push, line_of, meets_end, fill_line}
use yaup.Tools.Login.{
  Search, copy_user, copy_name, user_loop, get_user_line, shadow_loop, shadow_search,
}

-- Unless the end is met, a line takes something from the stream.
pub line_of_takes :
    (n : ℕ) (fp : List ℕ)
    → meets_end (suc n) fp ≡ false
    → length (drop (length (line_of (suc n) fp)) fp) < length fp
unfolding meets_end line_of
line_of_takes n [] e = ground arith
line_of_takes n (c ∷ fp) e = ground (arith, length-drop (length (line_of n fp)) fp)

-- A function that ends does so for what follows it.
then_run_ends :
    {A B : Type 0} (r : Run A) (k : A → Run B)
    → r ≢ out_of_fuel
    → ((a : A) → k a ≢ out_of_fuel)
    → then_run r k ≢ out_of_fuel
then_run_ends (ok a) k h g = g a
then_run_ends (panic m) k h g = ground arith
then_run_ends fault k h g = ground arith
then_run_ends out_of_fuel k h g = absurd (h refl)

strcmp_eq_ends : (s t : List ℕ) → strcmp_eq s t ≢ out_of_fuel
unfolding strcmp_eq
strcmp_eq_ends [] t = ground arith
strcmp_eq_ends (c ∷ s) [] = ground arith
strcmp_eq_ends (c ∷ s) (d ∷ t) = ground (arith, strcmp_eq_ends s t)

push_ends : (c : ℕ) (r : Run (List ℕ)) → r ≢ out_of_fuel → push c r ≢ out_of_fuel
push_ends c r h = then_run_ends r (λ cs. ok (c ∷ cs)) h (λ cs. ground arith)

copy_name_ends : (n : ℕ) (line buff : List ℕ) → copy_name n line buff ≢ out_of_fuel
unfolding copy_name
copy_name_ends n [] buff = ground arith
copy_name_ends n (c ∷ line) [] = ground arith
copy_name_ends zero (c ∷ line) (b ∷ buff) = ground arith
copy_name_ends (suc n) (c ∷ line) (b ∷ buff) =
    ground (arith, push_ends c (copy_name n line buff) (copy_name_ends n line buff))

copy_user_ends : (line user : List ℕ) → copy_user line user ≢ out_of_fuel
unfolding copy_user
copy_user_ends [] user = ground arith
copy_user_ends (c ∷ line) [] = ground arith
copy_user_ends (c ∷ line) (u ∷ user) =
    ground (arith, push_ends c (copy_user line user) (copy_user_ends line user))

shadow_loop_ends :
    (fuel : ℕ) (username : List ℕ) (s : Search) (eof : Bool) (shadow : List ℕ)
    → (eof ≡ true) ⊎ (length shadow < fuel)
    → shadow_loop fuel username s eof shadow ≢ out_of_fuel
unfolding shadow_loop
shadow_loop_ends zero username s true shadow lt = ground arith
shadow_loop_ends zero username s false shadow lt = ground arith
shadow_loop_ends (suc fuel) username s true shadow lt = ground arith
shadow_loop_ends (suc fuel) username s false shadow lt =
    let line = fill_line (line_of 127 shadow) s.line in
    let left = drop (length (line_of 127 shadow)) shadow in
    let next : List ℕ → Bool → Run Search = λ user same.
      shadow_loop fuel username (record { found = same; line = line; name = user })
        (meets_end 127 shadow) left in
    let shorter : (meets_end 127 shadow ≡ true) ⊎ (length left < fuel) =
      elim (Bool-cases (meets_end 127 shadow)) [
        | inl p ↦ inl p
        | inr p ↦ inr (ground (arith, line_of_takes 126 shadow p))
      ] in
    let round : then_run (copy_name 32 line s.name)
          (λ user. then_run (strcmp_eq user username) (next user))
        ≢ out_of_fuel =
      then_run_ends _ _ (copy_name_ends 32 line s.name) (λ user.
        then_run_ends _ (next user) (strcmp_eq_ends user username)
          (λ same. shadow_loop_ends fuel username _ _ left shorter)) in
    ground (arith, round)

user_loop_ends :
    (fuel : ℕ) (username : List ℕ) (s : Search) (eof : Bool) (passwd : List ℕ)
    → (eof ≡ true) ⊎ (length passwd < fuel)
    → user_loop fuel username s eof passwd ≢ out_of_fuel
unfolding user_loop
user_loop_ends zero username s true passwd lt = ground arith
user_loop_ends zero username s false passwd lt = ground arith
user_loop_ends (suc fuel) username s true passwd lt = ground arith
user_loop_ends (suc fuel) username s false passwd lt =
    let line = fill_line (line_of 127 passwd) s.line in
    let left = drop (length (line_of 127 passwd)) passwd in
    let next : List ℕ → Bool → Run Search = λ user same.
      user_loop fuel username (record { found = same; line = line; name = user })
        (meets_end 127 passwd) left in
    let shorter : (meets_end 127 passwd ≡ true) ⊎ (length left < fuel) =
      elim (Bool-cases (meets_end 127 passwd)) [
        | inl p ↦ inl p
        | inr p ↦ inr (ground (arith, line_of_takes 126 passwd p))
      ] in
    let round : then_run (copy_user line s.name)
          (λ user. then_run (strcmp_eq user username) (next user))
        ≢ out_of_fuel =
      then_run_ends _ _ (copy_user_ends line s.name) (λ user.
        then_run_ends _ (next user) (strcmp_eq_ends user username)
          (λ same. user_loop_ends fuel username _ _ left shorter)) in
    ground (arith, round)

-- For every content of the files and of the fresh memory, the search of `get_user_line` and that of
-- `match` end, with a result or a fault.
pub searches_end :
    (line name file username : List ℕ)
    → (get_user_line line name file username ≢ out_of_fuel)
      × (shadow_search line name file username ≢ out_of_fuel)
unfolding get_user_line shadow_search
searches_end line name file username = (
  user_loop_ends _ username _ false file (inr (omega arith)),
  shadow_loop_ends _ username _ false file (inr (omega arith)),
)
