-- ===== src/Shell/Main.antt =====
-- busybox/shell/sh.c and `exec_cmd` of include/shell.h: the shell's start and one round of its loop.
-- A child that cannot run its program goes on as a second shell; the model follows the parent.
pub mod Round
pub mod Reading
pub mod Session
pub mod Start
use yaup.Base.{
  ℕ, zero, suc, ◌+◌, ◌-◌, ◌*◌, ◌^◌, Bool, true, false, ◌||◌, Option, none, some, List, [], ◌∷◌,
  ◌++◌, if◌then◌else◌, ◌==◌, leb, ltb, length, get_elem?, set, take, drop, replicate, map,
  find_index, Run, ok, panic, fault, out_of_fuel, Cmd, ◌>>=◌, ◌>>◌, pure, faults, gets, modify,
  deref, lift, ℤ, pos, negsuc,
}
use yaup.Errno.{einval}
use yaup.Shell.Text.{string_of, same_text, strcmp_eq, strncpy, text, atoi, decimal, parts_of}
use yaup.Shell.Line.{read_line, split_line}
use yaup.Shell.State.{
  System, Shell, put, value_text, who_var, uid_var, gid_var, home_var, path_var, ret_var, max_env,
}
use yaup.Shell.Env.{yash_env}
use yaup.Shell.Echo.{yash_echo, yash_clear}
use yaup.Shell.Tee.{yash_tee}
use yaup.Shell.Builtins.{
  Builtin, cd, clear, echo, env, exit, pwd, sleep, tee, time, who, builtins, functions, select_cmd,
  yash_cd, yash_exit, yash_pwd, yash_who, yash_sleep, call_index, time_of,
}

abbrev pub first : List (List ℕ) → Option (List ℕ)
first [] = none
first (cmd ∷ args) = some cmd

-- The names of the variables.
abbrev pub env_names : List (List ℕ)
env_names =
    text "USER"
    ∷ text "UID"
    ∷ text "GID"
    ∷ text "HOME"
    ∷ text "PATH"
    ∷ text "PWD"
    ∷ text "?"
    ∷ text "SHELL"
    ∷ []

-- The values are the strings of `envp` in order, whatever they name. A null pointer stands behind
-- the last one; what is behind that is not read without a fault. `held` is what the table of values
-- holds.
unfoldable pub init_values :
    ℕ → List (List ℕ) → List (Option (List ℕ)) → Run (List (Option (List ℕ)))
init_values zero envp held = ok held
init_values (suc n) [] [] = fault
init_values (suc n) [] (v ∷ held) = if n == 0 then ok (none ∷ held) else fault
init_values (suc n) (e ∷ envp) [] = fault
init_values (suc n) (e ∷ envp) (v ∷ held) = elim (init_values n envp held) [
  | ok values ↦ ok (some e ∷ values)
  | panic m ↦ panic m
  | fault ↦ fault
  | out_of_fuel ↦ out_of_fuel
]

unfoldable pub init_names : List (Option (List ℕ))
init_names = map (λ name. some (strncpy 32 name)) env_names ++ replicate (max_env - 8) none

unfoldable pub is_entry : List ℕ → List ℕ → Bool
is_entry cmd name =
    if same_text name (text "..") || same_text name (text ".") then false else same_text name cmd

module _ (y : System) where
  -- Whether an allocation is granted.
  unfoldable pub has_memory : y.World → ℕ → Bool
  has_memory w n = elim (y.malloc w n) [ none ↦ false | some bytes ↦ true ]

  -- The path of the command in the first directory that has it. A directory that cannot be opened
  -- ends the search, and a path of 512 characters or more does not fit.
  unfoldable pub search_path : y.World → List ℕ → List (List ℕ) → Run (Option (List ℕ))
  search_path w cmd [] = ok none
  search_path w cmd (dir ∷ dirs) =
      let rest = search_path w cmd dirs in
      elim (y.entries w dir) [
        | none ↦ ok none
        | some names ↦ elim (find_index (is_entry cmd) names) [
          | none ↦ rest
          | some i ↦
              let exec = dir ++ (b'/' ∷ cmd) in
              elim (y.malloc w 512) [
                | none ↦ fault
                | some held ↦ if ltb (length exec) 512 then ok (some exec) else fault
              ]
        ]
      ]

module _ {y : System} where
  unfoldable pub find_cmd : List ℕ → Cmd (Shell y) (Option (List ℕ))
  find_cmd cmd = value_text path_var >>= λ path. gets (λ s. s.world) >>= λ w.
      elim (y.malloc w 512) [
        | none ↦ faults
        | some held ↦
            if ltb (length path) 512
            then lift (search_path y w (string_of cmd) (parts_of path))
            else faults
      ]

  unfoldable pub exec_cmd : Option (List ℕ) → List (List ℕ) → Cmd (Shell y) ℕ
  exec_cmd program args = gets (λ s. y.spawn s.world program args s.envp_value) >>= λ child.
      elim child [
        | none ↦ pure einval
        | some (status, world) ↦ modify (λ s. record s { world = world }) >> pure status
      ]

  -- `strncpy(envp_value[RET], ret, 12)` writes all twelve bytes.
  unfoldable pub put_status : ℕ → Cmd (Shell y) (Unit {0})
  put_status status = gets (λ s. get_elem? s.envp_value ret_var) >>= λ slot. deref slot >>= λ value.
      deref value >>= λ bytes.
      if ltb (length bytes) 12
      then faults
      else modify (λ s. record s {
        envp_value = set s.envp_value ret_var (some (strncpy 12 (decimal status) ++ drop 12 bytes));
      })

module _ {y : System} where
  -- `chdir(envp_value[HOME]); setuid(…); setgid(…)`. Whether a call fails is not looked at.
  unfoldable pub enter : Cmd (Shell y) (Unit {0})
  enter = gets (λ s. get_elem? s.envp_value home_var) >>= λ slot. deref slot >>= λ home.
      modify (λ s. record s { world = (y.chdir s.world home).1 })
      >> (value_text uid_var >>= λ uid.
          modify (λ s. record s { world = y.setuid s.world (atoi uid) })
          >> (value_text gid_var >>= λ gid.
              modify (λ s. record s { world = y.setgid s.world (atoi gid) })))

  abbrev pub started : List ℕ → y.World → Run (List (Option (List ℕ))) → Run (Unit {0} × Shell y)
  started stdin w (ok values) = enter (record {
    envp_name = init_names;
    envp_value = values;
    stdin = stdin;
    stdout = [];
    world = w;
  })
  started stdin w (panic m) = panic m
  started stdin w fault = fault
  started stdin w out_of_fuel = out_of_fuel

  -- What `main` does in front of its loop, with the tables' memory granted. `held` is what the table
  -- of values holds.
  unfoldable pub main_start :
      List (List ℕ) → List (Option (List ℕ)) → List ℕ → y.World → Run (Unit {0} × Shell y)
  main_start envp held stdin w = started stdin w (init_values 8 envp held)

-- `state` is what an unset variable of `yash_env` holds.
module _ {y : System} (state : ℕ) where
  -- `(*functions[i])(argv)`
  unfoldable pub call : List (List ℕ) → Builtin → Cmd (Shell y) ℕ
  call [] b = faults
  call (cmd ∷ args) cd = yash_cd (cmd ∷ args)
  call (cmd ∷ args) clear = yash_clear (cmd ∷ args)
  call (cmd ∷ args) echo = yash_echo (cmd ∷ args)
  call (cmd ∷ args) env = yash_env state (cmd ∷ args)
  call (cmd ∷ args) exit = yash_exit (cmd ∷ args)
  call (cmd ∷ args) pwd = yash_pwd (cmd ∷ args)
  call (cmd ∷ args) sleep = yash_sleep (cmd ∷ args)
  call (cmd ∷ args) tee = yash_tee (cmd ∷ args)
  call (cmd ∷ args) time = time_of (call args) (first args)
  call (cmd ∷ args) who = yash_who (cmd ∷ args)

  -- `i` is unsigned: -1 is told apart, and every other value, -2 included, is an index.
  unfoldable pub run_index : ℤ → List (List ℕ) → Cmd (Shell y) ℕ
  run_index (pos i) args = call_index (call args) i
  run_index (negsuc (suc n)) args = call_index (call args) (2 ^ 32 - 2 - n)
  run_index (negsuc zero) [] = faults
  run_index (negsuc zero) (cmd ∷ args) =
      find_cmd cmd >>= λ program. exec_cmd program (map string_of args)

  unfoldable pub run_tokens : Option (List (List ℕ) × List ℕ) → Cmd (Shell y) (Unit {0})
  run_tokens none = pure tt
  run_tokens (some (args, buff)) = lift (select_cmd builtins (first args)) >>= λ i.
      run_index i args >>= λ status. put_status status

  -- What is behind the line's NUL in its buffer is there for the tokens to run into. A line that
  -- cannot be split is dropped.
  unfoldable pub run_line : List ℕ → Cmd (Shell y) (Unit {0})
  run_line line s =
      let text_of = string_of line in
      (lift (split_line (has_memory y s.world) (drop (length text_of + 1) line) text_of)
          >>= run_tokens)
        s

  -- One round. A line that cannot be read is asked for again.
  unfoldable pub round : Cmd (Shell y) (Unit {0})
  round = value_text who_var >>= λ user.
      put (b'[' ∷ (user ++ text "]: "))
      >> (gets (λ s. read_line (y.malloc s.world) s.stdin) >>= λ result.
          lift result >>= λ (line, input).
          modify (λ s. record s { stdin = input })
          >> elim line [ none ↦ pure tt | some bytes ↦ run_line bytes ])
