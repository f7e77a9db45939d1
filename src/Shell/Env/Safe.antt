-- ===== src/Shell/Env/Safe.antt =====
-- `env` leaves the names of the first six variables alone.
use yaup.Base.{
  ℕ, suc, ◌+◌, ◌≡◌, ◌≢◌, refl, ◌∙◌, Bool, true, false, Option, none, some, List, [], ◌∷◌, ◌==◌,
  get_elem?, get_elem?-set_ne, Option-cases, inl, inr, Run, ok, panic, fault, out_of_fuel, ◌>>=◌,
  gets, lift, arith,
}
use yaup.Shell.Text.{strcmp_eq, string_of, strncpy}
use yaup.Shell.State.{System, Shell}
use yaup.Shell.Env.{
  Slot, empty, named, missing, set_scan, list_loop, env_list, new_value, assign, env_set, env_unset,
  env_option, dash_option, yash_env,
}
use yaup.Shell.Env.Variables.{env_unset-own}
use yaup.Shell.Frame.{
  Keeps, IsSafe, bind-IsSafe, frame-IsSafe, pure-IsSafe, faults-IsSafe, gets-IsSafe, put-IsSafe,
  option-IsSafe, if-IsSafe, and_then-ok,
}

-- An entry is a null pointer, at a place counted from `i`.
abbrev IsNull : List (Option (List ℕ)) → ℕ → ℕ → Type 0
IsNull names i k = (n : ℕ) × (k ≡ i + n) × (get_elem? names n ≡ some none)

set_scan-next :
    (r : Run Bool) (bytes : List ℕ) (names : List (Option (List ℕ))) (i k : ℕ) (name : List ℕ)
    → strcmp_eq bytes name ≡ r
    → (set_scan names (i + 1) name ≡ ok (empty k) → IsNull names (i + 1) k)
    → set_scan (some bytes ∷ names) i name ≡ ok (empty k)
    → IsNull (some bytes ∷ names) i k
unfolding set_scan
set_scan-next (ok true) bytes names i k name q ih e = absurd (ground arith)
set_scan-next (ok false) bytes names i k name q ih e =
    let (n, p, g) = ih (ground arith) in (suc n, omega arith, g)
set_scan-next (panic m) bytes names i k name q ih e = absurd (ground arith)
set_scan-next fault bytes names i k name q ih e = absurd (ground arith)
set_scan-next out_of_fuel bytes names i k name q ih e = absurd (ground arith)

-- The search of `env_set` calls an entry empty only if it is a null pointer.
set_scan-IsNull :
    (names : List (Option (List ℕ))) (i k : ℕ) (name : List ℕ)
    → set_scan names i name ≡ ok (empty k)
    → IsNull names i k
unfolding set_scan
set_scan-IsNull [] i k name e = ground arith
set_scan-IsNull (none ∷ names) i k name e = (0, ground arith, refl)
set_scan-IsNull (some bytes ∷ names) i k name e =
    set_scan-next (strcmp_eq bytes name) bytes names i k name refl
      (set_scan-IsNull names (i + 1) k name) e

module _ {y : System} where
  list_loop-IsSafe :
      (names values : List (Option (List ℕ))) → IsSafe {y = y} (list_loop names values)
  unfolding list_loop
  list_loop-IsSafe [] values = faults-IsSafe
  list_loop-IsSafe (none ∷ names) values = pure-IsSafe 0
  list_loop-IsSafe (some name ∷ names) (some value ∷ values) =
      bind-IsSafe _ _ (put-IsSafe _) (λ u. list_loop-IsSafe names values)
  list_loop-IsSafe (some name ∷ names) (none ∷ values) = faults-IsSafe
  list_loop-IsSafe (some name ∷ names) [] = faults-IsSafe

  new_value-IsSafe : (held : List ℕ) (args : List (List ℕ)) → IsSafe {y = y} (new_value held args)
  unfolding new_value
  new_value-IsSafe held args = frame-IsSafe _ (λ s t a e. ground arith)

  -- A name is written only to an entry that was a null pointer.
  set_assign-Keeps :
      (s t : Shell y) (name value : List ℕ) (r : ℕ) (slot : Slot)
      → set_scan s.envp_name 0 name ≡ ok slot
      → assign slot name value s ≡ ok (r, t)
      → Keeps s t
  unfolding assign
  set_assign-Keeps s t name value r (empty k) e m i b small g =
      let (n, q, null) = set_scan-IsNull s.envp_name 0 k name e in
      let ne : k ≢ i = ground (arith, null, g) in
      elim (Option-cases (y.malloc s.world 32)) [
        | inl p ↦ absurd (ground arith)
        | inr (held, p) ↦
            ground (arith, get_elem?-set_ne s.envp_name k i (some (strncpy 32 name)) ne)
      ]
  set_assign-Keeps s t name value r (named k) e m i b small g = ground arith
  set_assign-Keeps s t name value r missing e m i b small g = ground arith

  lift-ok :
      {A : Type 0} (r : Run A) (s t : Shell y) (a : A) → lift r s ≡ ok (a, t) → (r ≡ ok a) × (s ≡ t)
  lift-ok (ok a') s t a e = (ground arith, ground arith)
  lift-ok (panic m) s t a e = absurd (ground arith)
  lift-ok fault s t a e = absurd (ground arith)
  lift-ok out_of_fuel s t a e = absurd (ground arith)

  -- What `env_set` does with the value.
  store-IsSafe :
      (name value : List ℕ)
      → IsSafe {y = y} (
          gets (λ s. s.envp_name) >>= λ names.
          lift (set_scan names 0 name) >>= λ slot. assign slot name value)
  store-IsSafe name value s t a e =
      let (slot, s', e1, e2) = and_then-ok (lift (set_scan s.envp_name 0 name) s) _ a t e in
      let (scan, same) = lift-ok (set_scan s.envp_name 0 name) s s' slot e1 in
      set_assign-Keeps s t name value a slot scan (ground arith)

  env_set-IsSafe : (args : List (List ℕ)) → IsSafe {y = y} (env_set args)
  unfolding env_set
  env_set-IsSafe [] = pure-IsSafe _
  env_set-IsSafe (name ∷ []) = pure-IsSafe _
  env_set-IsSafe (name ∷ arg ∷ args) = bind-IsSafe _ _ (gets-IsSafe _) (λ memory.
      option-IsSafe memory _ _ faults-IsSafe (λ held.
        bind-IsSafe _ _ (new_value-IsSafe held (arg ∷ args))
          (λ value. store-IsSafe (string_of name) value)))

  env_unset-IsSafe : (args : List (List ℕ)) → IsSafe {y = y} (env_unset args)
  env_unset-IsSafe args s t a e i b small g = (env_unset-own s t args a i e small).0 ∙ g

  pub yash_env-IsSafe : (state : ℕ) (args : List (List ℕ)) → IsSafe {y = y} (yash_env state args)
  unfolding yash_env dash_option env_option env_list
  yash_env-IsSafe state [] = faults-IsSafe
  yash_env-IsSafe state (cmd ∷ []) = λ s. list_loop-IsSafe s.envp_name s.envp_value s
  yash_env-IsSafe state (cmd ∷ [] ∷ args) = faults-IsSafe
  yash_env-IsSafe state (cmd ∷ (c ∷ []) ∷ args) =
      if-IsSafe (c == b'-') _ _ faults-IsSafe (pure-IsSafe state)
  yash_env-IsSafe state (cmd ∷ (c ∷ opt ∷ more) ∷ args) =
      if-IsSafe (c == b'-') _ _
        (if-IsSafe (opt == b'l') _ _ (λ s. list_loop-IsSafe s.envp_name s.envp_value s)
          (if-IsSafe (opt == b's') _ _ (env_set-IsSafe args) (
            if-IsSafe (opt == b'u') _ _ (env_unset-IsSafe args)
              (if-IsSafe (opt == b'h') _ _ (pure-IsSafe 0) (pure-IsSafe _)))))
        (pure-IsSafe state)
