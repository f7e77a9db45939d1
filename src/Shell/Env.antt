-- ===== src/Shell/Env.antt =====
-- busybox/shell/env.c: the environment's table. Messages to stderr are left out.
pub mod Scan
pub mod Variables
pub mod RoundTrip
pub mod Safe
use yaup.Base.{
  ℕ, zero, suc, ◌+◌, ◌-◌, Bool, true, false, Option, none, some, List, [], ◌∷◌, ◌++◌, if◌then◌else◌,
  ◌==◌, leb, ltb, length, drop, get_elem?, set, Run, ok, panic, fault, out_of_fuel, Cmd, ◌>>=◌,
  ◌>>◌, pure, faults, gets, modify, lift,
}
use yaup.Errno.{einval, e2big}
use yaup.Shell.Text.{string_of, strcmp_eq, strncpy}
use yaup.Shell.State.{System, Shell, put, value_text, max_env}

-- What a search of the table stops at.
pub data Slot : Type 0 where
  empty : ℕ → Slot
  named : ℕ → Slot
  missing : Slot

-- The search of `env_set`: the first entry that is null or has the name.
unfoldable pub set_scan : List (Option (List ℕ)) → ℕ → List ℕ → Run Slot
set_scan [] i name = ok missing
set_scan (none ∷ names) i name = ok (empty i)
set_scan (some bytes ∷ names) i name =
    let rest = set_scan names (i + 1) name in
    elim (strcmp_eq bytes name) [
      | ok same ↦ if same then ok (named i) else rest
      | panic m ↦ panic m
      | fault ↦ fault
      | out_of_fuel ↦ out_of_fuel
    ]

-- The search of `env_unset` and `echo`: the first entry that has the name; a null one is read.
unfoldable pub find_scan : List (Option (List ℕ)) → ℕ → List ℕ → Run (Option ℕ)
find_scan [] i name = ok none
find_scan (none ∷ names) i name = fault
find_scan (some bytes ∷ names) i name =
    let rest = find_scan names (i + 1) name in
    elim (strcmp_eq bytes name) [
      | ok same ↦ if same then ok (some i) else rest
      | panic m ↦ panic m
      | fault ↦ fault
      | out_of_fuel ↦ out_of_fuel
    ]

-- `strcat(value, arg); strcat(value, " ");` for each argument.
unfoldable pub join_args : List (List ℕ) → List ℕ
join_args [] = []
join_args (arg ∷ args) = string_of arg ++ (32 ∷ join_args args)

module _ {y : System} where
  -- The lines `NAME = VALUE` up to the first null name; the names are read past the table when none
  -- is null.
  unfoldable pub list_loop : List (Option (List ℕ)) → List (Option (List ℕ)) → Cmd (Shell y) ℕ
  list_loop [] values = faults
  list_loop (none ∷ names) values = pure 0
  list_loop (some name ∷ names) (some value ∷ values) =
      put (string_of name ++ ((32 ∷ 61 ∷ 32 ∷ []) ++ string_of value ++ (10 ∷ [])))
      >> list_loop names values
  list_loop (some name ∷ names) (none ∷ values) = faults
  list_loop (some name ∷ names) [] = faults

  unfoldable pub env_list : Cmd (Shell y) ℕ
  env_list = λ s. list_loop s.envp_name s.envp_value s

  -- The object of 256 bytes for the value: what it happens to hold, then the arguments and a NUL.
  unfoldable pub new_value : List ℕ → List (List ℕ) → Cmd (Shell y) (List ℕ)
  new_value held args =
      let text = string_of held ++ join_args args in
      if ltb (length text) (length held)
      then pure (text ++ (0 ∷ drop (length text + 1) held))
      else faults

  unfoldable pub assign : Slot → List ℕ → List ℕ → Cmd (Shell y) ℕ
  assign (empty i) name value = gets (λ s. y.malloc s.world 32) >>= λ memory. elim memory [
    | none ↦ faults
    | some held ↦
        modify (λ s. record s {
          envp_name = set s.envp_name i (some (strncpy 32 name));
          envp_value = set s.envp_value i (some value);
        })
        >> pure 0
  ]
  assign (named i) name value =
      modify (λ s. record s { envp_value = set s.envp_value i (some value) }) >> pure 0
  assign missing name value = pure e2big

  -- A refused allocation is written to; only the value's is reported first.
  unfoldable pub env_set : List (List ℕ) → Cmd (Shell y) ℕ
  env_set [] = pure einval
  env_set (name ∷ []) = pure einval
  env_set (name ∷ arg ∷ args) = gets (λ s. y.malloc s.world 256) >>= λ memory. elim memory [
    | none ↦ faults
    | some held ↦ new_value held (arg ∷ args) >>= λ value. gets (λ s. s.envp_name) >>= λ names.
        lift (set_scan names 0 (string_of name)) >>= λ slot. assign slot (string_of name) value
  ]

  -- The first six variables are the shell's own.
  unfoldable pub clear_entry : Option ℕ → Cmd (Shell y) ℕ
  clear_entry none = pure einval
  clear_entry (some i) =
      if leb i 5
      then pure einval
      else modify (λ s. record s {
        envp_name = set s.envp_name i none;
        envp_value = set s.envp_value i none;
      })
        >> pure 0

  unfoldable pub env_unset : List (List ℕ) → Cmd (Shell y) ℕ
  env_unset [] = pure einval
  env_unset (name ∷ args) = gets (λ s. s.envp_name) >>= λ names.
      lift (find_scan names 0 (string_of name)) >>= λ found. clear_entry found

  -- The letter behind the dash.
  unfoldable pub env_option : ℕ → List (List ℕ) → Cmd (Shell y) ℕ
  env_option opt args =
      if opt == b'l'
      then env_list
      else (if opt == b's'
          then env_set args
          else (if opt == b'u'
              then env_unset args
              else (if opt == b'h' then pure 0 else pure einval)))

  unfoldable pub dash_option : List ℕ → List (List ℕ) → Cmd (Shell y) ℕ
  dash_option [] args = faults
  dash_option (opt ∷ more) args = env_option opt args

  -- `state` is not set when the first argument does not start with a dash: it is what it happens to
  -- hold.
  unfoldable pub yash_env : ℕ → List (List ℕ) → Cmd (Shell y) ℕ
  yash_env state [] = faults
  yash_env state (cmd ∷ []) = env_list
  yash_env state (cmd ∷ [] ∷ args) = faults
  yash_env state (cmd ∷ (c ∷ more) ∷ args) = if c == b'-' then dash_option more args else pure state
