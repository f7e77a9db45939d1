-- ===== src/Shell/Main/Session.antt =====
-- A session of the shell: rounds of its loop, one after the other.
use yaup.Base.{
  ℕ, zero, suc, ◌+◌, ◌≡◌, refl, Option, none, some, List, [], ◌∷◌, ◌++◌, get_elem?, set, drop, ok,
  gets, modify, lift, ℤ, pos, negsuc, ltb, length,
}
use yaup.Shell.Text.{string_of, strncpy, decimal}
use yaup.Errno.{einval}
use yaup.Shell.State.{System, Shell}
use yaup.Shell.Frame.{
  Keeps, IsSafe, bind-IsSafe, pure-IsSafe, faults-IsSafe, panics-IsSafe, gets-IsSafe, lift-IsSafe,
  deref-IsSafe, modify-IsSafe, put-IsSafe, value_text-IsSafe, option-IsSafe, if-IsSafe,
}
use yaup.Shell.Env.Safe.{yash_env-IsSafe}
use yaup.Shell.Builtins.Safe.{
  world-IsSafe, yash_cd-IsSafe, yash_clear-IsSafe, yash_echo-IsSafe, yash_pwd-IsSafe,
  yash_sleep-IsSafe, yash_tee-IsSafe, yash_who-IsSafe, call_index-IsSafe, time_of-IsSafe,
}
use yaup.Shell.Builtins.{
  Builtin, cd, clear, echo, env, exit, pwd, sleep, tee, time, who, yash_exit, builtins, select_cmd,
}
use yaup.Shell.Line.{read_line, split_line}
use yaup.Shell.Main.{
  first, call, run_index, run_tokens, run_line, round, put_status, find_cmd, exec_cmd, has_memory,
}

module _ {y : System} where
  exec_cmd-IsSafe :
      (program : Option (List ℕ)) (args : List (List ℕ)) → IsSafe {y = y} (exec_cmd program args)
  unfolding exec_cmd
  exec_cmd-IsSafe program args =
      bind-IsSafe (gets (λ s. y.spawn s.world program args s.envp_value)) _ (gets-IsSafe _)
        (λ child. option-IsSafe child _ _ (pure-IsSafe einval) (λ (status, world).
          bind-IsSafe _ _ (world-IsSafe (λ s. world)) (λ u. pure-IsSafe status)))

  find_cmd-IsSafe : (cmd : List ℕ) → IsSafe {y = y} (find_cmd cmd)
  unfolding find_cmd
  find_cmd-IsSafe cmd = bind-IsSafe _ _ (value_text-IsSafe _) (λ path.
      bind-IsSafe (gets (λ s. s.world)) _ (gets-IsSafe _) (λ w.
        option-IsSafe (y.malloc w 512) _ _ faults-IsSafe
          (λ held. if-IsSafe (ltb (length path) 512) _ _ (lift-IsSafe _) faults-IsSafe)))

  put_status-IsSafe : (status : ℕ) → IsSafe {y = y} (put_status status)
  unfolding put_status
  put_status-IsSafe status =
      bind-IsSafe (gets (λ s. get_elem? s.envp_value 6)) _ (gets-IsSafe _) (λ slot.
        bind-IsSafe _ _ (deref-IsSafe slot) (λ value. bind-IsSafe _ _ (deref-IsSafe value) (λ bytes.
          if-IsSafe (ltb (length bytes) 12) _ _ faults-IsSafe (
            modify-IsSafe
              (λ s. record s {
                envp_value =
                    set s.envp_value 6 (some (strncpy 12 (decimal status) ++ drop 12 bytes));
              })
              (λ s. refl)))))

  call-IsSafe :
      (state : ℕ) (args : List (List ℕ)) (b : Builtin) → IsSafe {y = y} (call state args b)
  unfolding call yash_exit
  call-IsSafe state [] b = faults-IsSafe
  call-IsSafe state (cmd ∷ args) cd = yash_cd-IsSafe (cmd ∷ args)
  call-IsSafe state (cmd ∷ args) clear = yash_clear-IsSafe (cmd ∷ args)
  call-IsSafe state (cmd ∷ args) echo = yash_echo-IsSafe (cmd ∷ args)
  call-IsSafe state (cmd ∷ args) env = yash_env-IsSafe state (cmd ∷ args)
  call-IsSafe state (cmd ∷ args) exit = panics-IsSafe "exit"
  call-IsSafe state (cmd ∷ args) pwd = yash_pwd-IsSafe (cmd ∷ args)
  call-IsSafe state (cmd ∷ args) sleep = yash_sleep-IsSafe (cmd ∷ args)
  call-IsSafe state (cmd ∷ args) tee = yash_tee-IsSafe (cmd ∷ args)
  call-IsSafe state (cmd ∷ args) time =
      time_of-IsSafe (call state args) (first args) (call-IsSafe state args)
  call-IsSafe state (cmd ∷ args) who = yash_who-IsSafe (cmd ∷ args)

  run_index-IsSafe :
      (state : ℕ) (i : ℤ) (args : List (List ℕ)) → IsSafe {y = y} (run_index state i args)
  unfolding run_index
  run_index-IsSafe state (pos i) args = call_index-IsSafe _ i (call-IsSafe state args)
  run_index-IsSafe state (negsuc (suc n)) args = call_index-IsSafe _ _ (call-IsSafe state args)
  run_index-IsSafe state (negsuc zero) [] = faults-IsSafe
  run_index-IsSafe state (negsuc zero) (cmd ∷ args) =
      bind-IsSafe _ _ (find_cmd-IsSafe cmd) (λ program. exec_cmd-IsSafe program _)

  run_tokens-IsSafe :
      (state : ℕ) (tokens : Option (List (List ℕ) × List ℕ))
      → IsSafe {y = y} (run_tokens state tokens)
  unfolding run_tokens
  run_tokens-IsSafe state none = pure-IsSafe tt
  run_tokens-IsSafe state (some (args, buff)) =
      bind-IsSafe (lift (select_cmd builtins (first args))) _ (lift-IsSafe _)
        (λ i. bind-IsSafe _ _ (run_index-IsSafe state i args) (λ status. put_status-IsSafe status))

  run_line-IsSafe : (state : ℕ) (line : List ℕ) → IsSafe {y = y} (run_line state line)
  unfolding run_line
  run_line-IsSafe state line s =
      bind-IsSafe
        (lift (
          split_line (has_memory y s.world) (drop (length (string_of line) + 1) line)
            (string_of line)))
        (run_tokens state) (lift-IsSafe _) (λ tokens. run_tokens-IsSafe state tokens) s

  round-IsSafe : (state : ℕ) → IsSafe {y = y} (round state)
  unfolding round
  round-IsSafe state = bind-IsSafe _ _ (value_text-IsSafe _) (λ user.
      bind-IsSafe _ _ (put-IsSafe _) (λ u.
        bind-IsSafe (gets (λ s. read_line (y.malloc s.world) s.stdin)) _ (gets-IsSafe _) (λ result.
          bind-IsSafe (lift result) _ (lift-IsSafe result) (λ (line, input).
            bind-IsSafe (modify (λ s. record s { stdin = input })) _ (modify-IsSafe _ (λ s. refl))
              (λ u'.
                option-IsSafe line _ _ (pure-IsSafe tt) (λ bytes. run_line-IsSafe state bytes))))))

-- Rounds of the loop of `main`, from a state to another. `state` is what an unset variable of
-- `yash_env` holds.
pub data Session {y : System} (state : ℕ) (s : Shell y) : Shell y → Type 0 where
  start : Session state s s
  after_round :
      {t u : Shell y} {a : Unit {0}}
      → Session state s t
      → round state t ≡ ok (a, u)
      → Session state s u

-- However many rounds the shell runs, whatever the lines say, the names of the first six variables
-- that are set at the start stay as they are.
pub Session-Keeps : {y : System} (state : ℕ) (s t : Shell y) → Session state s t → Keeps s t
Session-Keeps state s t start i b small g = g
Session-Keeps state s u (after_round {t = t} {a = a} session e) i b small g =
    round-IsSafe state t u a e i b small (Session-Keeps state s t session i b small g)
