-- ===== src/Shell/Env/Variables.antt =====
-- Setting, printing and removing a variable.
use yaup.Base.{
  ℕ, ◌≤◌, ◌≡◌, ◌≢◌, refl, sym, ◌∙◌, Option, none, some, List, [], ◌∷◌, ◌++◌, leb, get_elem?,
  get_elem?-set_ne, Bool-cases, inl, inr, Run, ok, panic, fault, out_of_fuel, arith,
}
use yaup.Shell.Text.{string_of}
use yaup.Shell.Text.Laws.{IsText, string_of-IsText, string_of-append, append-IsText}
use yaup.Shell.State.{System, Shell}
use yaup.Shell.Env.{empty, set_scan, find_scan, join_args, env_unset, clear_entry}
use yaup.Shell.Env.Scan.{set_scan-IsFree}
use yaup.Shell.Echo.{echo_variable, echo_found}

pub join_args-IsText : (args : List (List ℕ)) → IsText (join_args args)
unfolding join_args
join_args-IsText [] = tt
join_args-IsText (arg ∷ args) =
    append-IsText (string_of arg) (32 ∷ join_args args) (string_of-IsText arg)
      (ground arith, join_args-IsText args)

module _ {y : System} where
  clear_entry-own :
      (s t : Shell y) (r i : ℕ) (found : Option ℕ)
      → clear_entry found s ≡ ok (r, t)
      → i ≤ 5
      → (get_elem? t.envp_name i ≡ get_elem? s.envp_name i)
        × (get_elem? t.envp_value i ≡ get_elem? s.envp_value i)
  unfolding clear_entry
  clear_entry-own s t r i none e small = (ground arith, ground arith)
  clear_entry-own s t r i (some k) e small = elim (Bool-cases (leb k 5)) [
    | inl own ↦ (ground arith, ground arith)
    | inr other ↦
        let ne : k ≢ i = ground arith in
        (
          ground (arith, get_elem?-set_ne s.envp_name k i none ne),
          ground (arith, get_elem?-set_ne s.envp_value k i none ne),
        )
  ]

  env_unset-entry :
      (s : Shell y) (name : List ℕ) (args : List (List ℕ)) (found : Run (Option ℕ))
      → find_scan s.envp_name 0 (string_of name) ≡ found
      → env_unset (name ∷ args) s ≡ elim found [
        | ok a ↦ clear_entry a s
        | panic m ↦ panic m
        | fault ↦ fault
        | out_of_fuel ↦ out_of_fuel
      ]
  unfolding env_unset
  env_unset-entry s name args (ok a) h = rw h refl
  env_unset-entry s name args (panic m) h = rw h refl
  env_unset-entry s name args fault h = rw h refl
  env_unset-entry s name args out_of_fuel h = rw h refl

  env_unset-found :
      (s t : Shell y) (name : List ℕ) (args : List (List ℕ)) (r : ℕ) (found : Run (Option ℕ))
      → find_scan s.envp_name 0 (string_of name) ≡ found
      → env_unset (name ∷ args) s ≡ ok (r, t)
      → (a : Option ℕ) × (clear_entry a s ≡ ok (r, t))
  env_unset-found s t name args r (ok a) h e = (a, sym (env_unset-entry s name args (ok a) h) ∙ e)
  env_unset-found s t name args r (panic m) h e =
      absurd (ground (arith, env_unset-entry s name args (panic m) h))
  env_unset-found s t name args r fault h e =
      absurd (ground (arith, env_unset-entry s name args fault h))
  env_unset-found s t name args r out_of_fuel h e =
      absurd (ground (arith, env_unset-entry s name args out_of_fuel h))

  -- `env -u` leaves the first six variables as they are, whenever it returns.
  pub env_unset-own :
      (s t : Shell y) (args : List (List ℕ)) (r i : ℕ)
      → env_unset args s ≡ ok (r, t)
      → i ≤ 5
      → (get_elem? t.envp_name i ≡ get_elem? s.envp_name i)
        × (get_elem? t.envp_value i ≡ get_elem? s.envp_value i)
  unfolding env_unset
  env_unset-own s t [] r i e small = (ground arith, ground arith)
  env_unset-own s t (name ∷ args) r i e small =
      let (a, c) =
        env_unset-found s t name args r (find_scan s.envp_name 0 (string_of name)) refl e in
      clear_entry-own s t r i a c small

  -- `env -u` of a name that the table does not have, while an entry is free, reads a null pointer: a
  -- fault.
  pub env_unset-absent :
      (s : Shell y) (name : List ℕ) (args : List (List ℕ)) (k : ℕ)
      → set_scan s.envp_name 0 (string_of name) ≡ ok (empty k)
      → env_unset (name ∷ args) s ≡ fault
  env_unset-absent s name args k e =
      let (n, q, lt, put, null) = set_scan-IsFree s.envp_name 0 (string_of name) k e in
      env_unset-entry s name args fault null

  -- What a variable prints.
  pub echo_variable-found :
      (s : Shell y) (name value rest : List ℕ) (k : ℕ)
      → find_scan s.envp_name 0 (string_of name) ≡ ok (some k)
      → get_elem? s.envp_value k ≡ some (some (value ++ (0 ∷ rest)))
      → IsText value
      → echo_variable name s ≡ ok (0, record s { stdout = s.stdout ++ (value ++ (10 ∷ [])) })
  unfolding echo_variable echo_found
  echo_variable-found s name value rest k f g t = ground (arith, string_of-append value rest t)
