-- ===== src/Shell/Builtins.antt =====
-- The shell's commands: cd.c, exit.c and time.c of busybox/shell, pwd.c, who.c, sleep.c and the
-- table of sh.c; `select_cmd` of include/shell.h. A call of `exit` is a panic: it does not come
-- back. `tee` is in Shell/Tee.
pub mod Select
pub mod Safe
use yaup.Base.{
  ℕ, zero, suc, ◌+◌, ◌-◌, ◌^◌, Bool, true, false, Option, none, some, List, [], ◌∷◌, ◌++◌,
  if◌then◌else◌, ◌==◌, leb, ltb, get_elem?, Run, ok, panic, fault, out_of_fuel, Cmd, ◌>>=◌, ◌>>◌,
  pure, panics, faults, gets, modify, lift, ℤ, pos, negsuc,
}
use yaup.Errno.{eintr, einval}
use yaup.Shell.Text.{string_of, strcmp_eq, text, decimal, atoi}
use yaup.Shell.State.{System, Shell, put, value_text, who_var, pwd_var}
use yaup.Shell.Env.{yash_env}
use yaup.Shell.Echo.{yash_echo, yash_clear}

pub data Builtin : Type 0 where
  cd : Builtin
  clear : Builtin
  echo : Builtin
  env : Builtin
  exit : Builtin
  pwd : Builtin
  sleep : Builtin
  tee : Builtin
  time : Builtin
  who : Builtin

abbrev pub builtins : List (List ℕ)
builtins =
    text "cd"
    ∷ text "clear"
    ∷ text "echo"
    ∷ text "env"
    ∷ text "exit"
    ∷ text "pwd"
    ∷ text "sleep"
    ∷ text "tee"
    ∷ text "time"
    ∷ text "who"
    ∷ []

abbrev pub functions : List Builtin
functions = cd ∷ clear ∷ echo ∷ env ∷ exit ∷ pwd ∷ sleep ∷ tee ∷ time ∷ who ∷ []

unfoldable pub select_loop : List (List ℕ) → ℕ → List ℕ → Run ℤ
select_loop [] i cmd = ok (negsuc 0)
select_loop (b ∷ bs) i cmd =
    let rest = select_loop bs (i + 1) cmd in
    elim (strcmp_eq cmd b) [
      | ok same ↦ if same then ok (pos i) else rest
      | panic m ↦ panic m
      | fault ↦ fault
      | out_of_fuel ↦ out_of_fuel
    ]

-- The command's index, -1 for another command and -2 for none.
unfoldable pub select_cmd : List (List ℕ) → Option (List ℕ) → Run ℤ
select_cmd names none = ok (negsuc 1)
select_cmd names (some cmd) = select_loop names 0 cmd

unfoldable pub second : List (List ℕ) → Option (List ℕ)
second [] = none
second (cmd ∷ []) = none
second (cmd ∷ arg ∷ args) = some (string_of arg)

module _ {y : System} where
  unfoldable pub yash_cd : List (List ℕ) → Cmd (Shell y) ℕ
  yash_cd args = gets (λ s. y.chdir s.world (second args)) >>= λ (status, world).
      modify (λ s. record s { world = world }) >> pure status

  unfoldable pub yash_exit : List (List ℕ) → Cmd (Shell y) ℕ
  yash_exit args = panics "exit"

  unfoldable pub yash_pwd : List (List ℕ) → Cmd (Shell y) ℕ
  yash_pwd args = value_text pwd_var >>= λ dir. put (dir ++ (10 ∷ [])) >> pure 0

  unfoldable pub yash_who : List (List ℕ) → Cmd (Shell y) ℕ
  yash_who args =
      value_text who_var >>= λ user. put (user ++ text " logged at [HOSTNAME] [DATE]\n") >> pure 0

  unfoldable pub yash_sleep : List (List ℕ) → Cmd (Shell y) ℕ
  yash_sleep args = elim (second args) [
    | none ↦ pure einval
    | some arg ↦ gets (λ s. y.sleep s.world (atoi arg)) >>= λ (left, world).
        modify (λ s. record s { world = world }) >> pure (if ltb 0 left then eintr else 0)
  ]

  -- `%ld` of the difference.
  unfoldable pub put_msecs : ℕ → Cmd (Shell y) (Unit {0})
  put_msecs begin s =
      let end = y.clock s.world in
      put
        ((if leb begin end then decimal (end - begin) else b'-' ∷ decimal (begin - end))
          ++ text " msecs\n")
        s

  -- An index of the table; the null pointer behind the last entry and all else cannot be called.
  abbrev pub call_index : (Builtin → Cmd (Shell y) ℕ) → ℕ → Cmd (Shell y) ℕ
  call_index call i = elim (get_elem? functions i) [ none ↦ faults | some b ↦ call b ]

  -- `time` calls entry 11 for a command that is no builtin.
  unfoldable pub time_call : (Builtin → Cmd (Shell y) ℕ) → ℤ → Cmd (Shell y) ℕ
  time_call call (pos i) = call_index call i
  time_call call (negsuc zero) = call_index call 11
  time_call call (negsuc (suc n)) = faults

  unfoldable pub time_of : (Builtin → Cmd (Shell y) ℕ) → Option (List ℕ) → Cmd (Shell y) ℕ
  time_of call none = pure einval
  time_of call (some cmd) = gets (λ s. y.clock s.world) >>= λ begin.
      lift (select_cmd builtins (some cmd)) >>= λ i. time_call call i >>= λ status.
      (if status == 0 then put_msecs begin else pure tt) >> pure status
