-- ===== src/Shell/Env/RoundTrip.antt =====
-- What `env -s` sets, `echo` prints.
use yaup.Base.{
  ℕ, ◌+◌, ◌<◌, ◌≡◌, refl, some, List, [], ◌∷◌, ◌++◌, length, drop, set, get_elem?-set_self, Run, ok,
  panic, fault, out_of_fuel, arith, subst,
}
use yaup.Base.Sublists.{get_elem?_inside}
use yaup.Shell.Text.{string_of, strncpy}
use yaup.Shell.Text.Laws.{IsText, string_of-IsText, append-IsText, strcmp_eq-strncpy}
use yaup.Shell.State.{System, Shell}
use yaup.Shell.Env.{
  Slot, empty, named, missing, set_scan, find_scan, join_args, new_value, assign, env_set,
}
use yaup.Shell.Env.Scan.{set_scan-IsFree, set_scan-IsFound}
use yaup.Shell.Env.Variables.{echo_variable-found, join_args-IsText}
use yaup.Shell.Echo.{yash_echo, echo_variable}

module _ {y : System} (s : Shell y) (name arg held : List ℕ) (args : List (List ℕ))
    (memory : y.malloc s.world 256 ≡ some held) (room : List ℕ)
    (name_memory : y.malloc s.world 32 ≡ some room)
    (fits : length (string_of held ++ join_args (arg ∷ args)) < length held)
    (short : length (string_of name) < 32) (paired : length s.envp_value ≡ length s.envp_name) where
  value : List ℕ
  value = string_of held ++ join_args (arg ∷ args)

  rest : List ℕ
  rest = drop (length value + 1) held

  Prints : Shell y → Type 0
  Prints t = echo_variable name t ≡ ok (0, record t { stdout = t.stdout ++ (value ++ (10 ∷ [])) })

  env_set-entry :
      (slot : Run Slot)
      → set_scan s.envp_name 0 (string_of name) ≡ slot
      → env_set (name ∷ arg ∷ args) s ≡ elim slot [
        | ok a ↦ assign a (string_of name) (value ++ (0 ∷ rest)) s
        | panic m ↦ panic m
        | fault ↦ fault
        | out_of_fuel ↦ out_of_fuel
      ]
  unfolding env_set new_value value rest
  env_set-entry (ok a) h = ground arith
  env_set-entry (panic m) h = ground arith
  env_set-entry fault h = ground arith
  env_set-entry out_of_fuel h = ground arith

  value-IsText : IsText value
  unfolding value
  value-IsText =
      append-IsText (string_of held) (join_args (arg ∷ args)) (string_of-IsText held)
        (join_args-IsText (arg ∷ args))

  -- The state that an assignment leaves.
  assigned :
      (t : Shell y) (slot : Run Slot)
      → set_scan s.envp_name 0 (string_of name) ≡ slot
      → env_set (name ∷ arg ∷ args) s ≡ ok (0, t)
      → Prints t
  unfolding Prints assign
  assigned t (ok (empty k)) h e =
      let (n, q, lt, put, null) = set_scan-IsFree s.envp_name 0 (string_of name) k h in
      let same : n ≡ k = omega arith in
      let (old, g) = get_elem?_inside s.envp_value k (omega arith) in
      let new : Shell y = record s {
        envp_name = set s.envp_name k (some (strncpy 32 (string_of name)));
        envp_value = set s.envp_value k (some (value ++ (0 ∷ rest)));
      } in
      let here : new ≡ t = ground (arith, env_set-entry (ok (empty k)) h) in
      subst Prints here (
        echo_variable-found new name value rest k
          (subst
            (λ m.
              find_scan (set s.envp_name m (some (strncpy 32 (string_of name)))) 0 (string_of name)
              ≡ ok (some k))
            same (put (strncpy 32 (string_of name)) (strcmp_eq-strncpy 32 (string_of name) short)))
          (get_elem?-set_self s.envp_value k (some (value ++ (0 ∷ rest))) g) value-IsText)
  assigned t (ok (named k)) h e =
      let (n, q, lt, found) = set_scan-IsFound s.envp_name 0 (string_of name) k h in
      let (old, g) = get_elem?_inside s.envp_value k (omega arith) in
      let new : Shell y = record s {
        envp_value = set s.envp_value k (some (value ++ (0 ∷ rest)));
      } in
      let here : new ≡ t = ground (arith, env_set-entry (ok (named k)) h) in
      subst Prints here (
        echo_variable-found new name value rest k found
          (get_elem?-set_self s.envp_value k (some (value ++ (0 ∷ rest))) g) value-IsText)
  assigned t (ok missing) h e = absurd (ground (arith, env_set-entry (ok missing) h))
  assigned t (panic m) h e = absurd (ground (arith, env_set-entry (panic m) h))
  assigned t fault h e = absurd (ground (arith, env_set-entry fault h))
  assigned t out_of_fuel h e = absurd (ground (arith, env_set-entry out_of_fuel h))

  -- When `env -s` returns 0 for a name of fewer than 32 characters, `echo` of the variable prints
  -- the string that the fresh memory held, then the arguments with a space behind each. The
  -- allocations are granted, the value fits with its NUL, and the tables are equally long.
  pub env_set-echo :
      (t : Shell y) (cmd : List ℕ)
      → env_set (name ∷ arg ∷ args) s ≡ ok (0, t)
      → yash_echo (cmd ∷ (b'$' ∷ name) ∷ []) t
        ≡ ok (
          0,
          record t {
            stdout = t.stdout ++ ((string_of held ++ join_args (arg ∷ args)) ++ (10 ∷ []));
          },
        )
  unfolding yash_echo Prints value
  env_set-echo t cmd e = assigned t (set_scan s.envp_name 0 (string_of name)) refl e
