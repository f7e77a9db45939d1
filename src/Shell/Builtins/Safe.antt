-- ===== src/Shell/Builtins/Safe.antt =====
-- The commands but `env` leave the names of the first six variables alone.
use yaup.Base.{
  ℕ, zero, suc, refl, Option, none, some, List, [], ◌∷◌, ◌==◌, get_elem?, if◌then◌else◌, Cmd, gets,
  modify, lift, map, arith, ℤ, pos, negsuc, ltb,
}
use yaup.Shell.Text.{string_of, atoi}
use yaup.Errno.{eintr}
use yaup.Shell.State.{System, Shell, put}
use yaup.Shell.Frame.{
  IsSafe, bind-IsSafe, frame-IsSafe, pure-IsSafe, faults-IsSafe, gets-IsSafe, lift-IsSafe,
  modify-IsSafe, put-IsSafe, value_text-IsSafe, option-IsSafe, if-IsSafe,
}
use yaup.Shell.Echo.{echo_args, echo_found, echo_variable, yash_echo, yash_clear}
use yaup.Shell.Tee.{open_all, tee_files, yash_tee, copy_all}
use yaup.Shell.Builtins.{
  Builtin, functions, yash_cd, yash_pwd, yash_who, yash_sleep, put_msecs, builtins, select_cmd,
  second, call_index, time_call, time_of,
}

module _ {y : System} where
  echo_args-IsSafe : (args : List (List ℕ)) → IsSafe {y = y} (echo_args args)
  unfolding echo_args
  echo_args-IsSafe [] = bind-IsSafe _ _ (put-IsSafe _) (λ u. pure-IsSafe 0)
  echo_args-IsSafe (arg ∷ args) =
      bind-IsSafe _ _ (lift-IsSafe _)
        (λ text. bind-IsSafe _ _ (put-IsSafe _) (λ u. echo_args-IsSafe args))

  echo_found-IsSafe : (found : Option ℕ) → IsSafe {y = y} (echo_found found)
  unfolding echo_found
  echo_found-IsSafe none = pure-IsSafe 0
  echo_found-IsSafe (some i) =
      bind-IsSafe _ _ (value_text-IsSafe i)
        (λ text. bind-IsSafe _ _ (put-IsSafe _) (λ u. pure-IsSafe 0))

  echo_variable-IsSafe : (name : List ℕ) → IsSafe {y = y} (echo_variable name)
  unfolding echo_variable
  echo_variable-IsSafe name =
      bind-IsSafe (gets (λ s. s.envp_name)) _ (gets-IsSafe _)
        (λ names. bind-IsSafe _ _ (lift-IsSafe _) (λ found. echo_found-IsSafe found))

  pub yash_echo-IsSafe : (args : List (List ℕ)) → IsSafe {y = y} (yash_echo args)
  unfolding yash_echo
  yash_echo-IsSafe [] = faults-IsSafe
  yash_echo-IsSafe (cmd ∷ []) = faults-IsSafe
  yash_echo-IsSafe (cmd ∷ [] ∷ args) = faults-IsSafe
  yash_echo-IsSafe (cmd ∷ (c ∷ more) ∷ args) =
      if-IsSafe (c == b'$') _ _ (echo_variable-IsSafe more) (echo_args-IsSafe ((c ∷ more) ∷ args))

  -- The world of the processes may change.
  pub world-IsSafe :
      (f : Shell y → y.World) → IsSafe {y = y} (modify (λ s. record s { world = f s }))
  world-IsSafe f = modify-IsSafe _ (λ s. refl)

  open_all-IsSafe : (files : List (List ℕ)) → IsSafe {y = y} (open_all files)
  unfolding open_all
  open_all-IsSafe [] = pure-IsSafe tt
  open_all-IsSafe (file ∷ files) =
      bind-IsSafe (gets (λ s. y.create s.world file)) _ (gets-IsSafe _) (λ opened.
        option-IsSafe opened _ _ faults-IsSafe
          (λ world. bind-IsSafe _ _ (world-IsSafe (λ s. world)) (λ u. open_all-IsSafe files)))

  pub yash_tee-IsSafe : (args : List (List ℕ)) → IsSafe {y = y} (yash_tee args)
  unfolding yash_tee tee_files
  yash_tee-IsSafe [] = faults-IsSafe
  yash_tee-IsSafe (cmd ∷ args) =
      bind-IsSafe (open_all (map string_of args)) _ (open_all-IsSafe _) (λ u.
        bind-IsSafe (gets (λ s. s.stdin)) _ (gets-IsSafe _) (λ input.
          bind-IsSafe _ _
            (bind-IsSafe (put input) _ (put-IsSafe input) (λ u'.
              modify-IsSafe
                (λ s. record s {
                  stdin = [];
                  world = copy_all y (map string_of args) input s.world;
                })
                (λ s. refl)))
            (λ u'. pure-IsSafe 0)))

  pub yash_cd-IsSafe : (args : List (List ℕ)) → IsSafe {y = y} (yash_cd args)
  unfolding yash_cd
  yash_cd-IsSafe args =
      bind-IsSafe (gets (λ s. y.chdir s.world (second args))) _ (gets-IsSafe _)
        (λ (status, world). bind-IsSafe _ _ (world-IsSafe (λ s. world)) (λ u. pure-IsSafe status))

  pub yash_sleep-IsSafe : (args : List (List ℕ)) → IsSafe {y = y} (yash_sleep args)
  unfolding yash_sleep
  yash_sleep-IsSafe args = option-IsSafe (second args) _ _ (pure-IsSafe _) (λ arg.
      bind-IsSafe (gets (λ s. y.sleep s.world (atoi arg))) _ (gets-IsSafe _) (λ (left, world).
        bind-IsSafe _ _ (world-IsSafe (λ s. world))
          (λ u. pure-IsSafe (if ltb 0 left then eintr else 0))))

  pub yash_pwd-IsSafe : (args : List (List ℕ)) → IsSafe {y = y} (yash_pwd args)
  unfolding yash_pwd
  yash_pwd-IsSafe args =
      bind-IsSafe _ _ (value_text-IsSafe _)
        (λ dir. bind-IsSafe _ _ (put-IsSafe _) (λ u. pure-IsSafe 0))

  pub yash_who-IsSafe : (args : List (List ℕ)) → IsSafe {y = y} (yash_who args)
  unfolding yash_who
  yash_who-IsSafe args =
      bind-IsSafe _ _ (value_text-IsSafe _)
        (λ user. bind-IsSafe _ _ (put-IsSafe _) (λ u. pure-IsSafe 0))

  pub yash_clear-IsSafe : (args : List (List ℕ)) → IsSafe {y = y} (yash_clear args)
  unfolding yash_clear
  yash_clear-IsSafe args = bind-IsSafe _ _ (put-IsSafe _) (λ u. pure-IsSafe 0)

  pub call_index-IsSafe :
      (f : Builtin → Cmd (Shell y) ℕ) (i : ℕ)
      → ((b : Builtin) → IsSafe (f b))
      → IsSafe (call_index f i)
  call_index-IsSafe f i safe = option-IsSafe (get_elem? functions i) _ _ faults-IsSafe safe

  time_call-IsSafe :
      (f : Builtin → Cmd (Shell y) ℕ) (i : ℤ)
      → ((b : Builtin) → IsSafe (f b))
      → IsSafe (time_call f i)
  unfolding time_call
  time_call-IsSafe f (pos i) safe = call_index-IsSafe f i safe
  time_call-IsSafe f (negsuc zero) safe = call_index-IsSafe f 11 safe
  time_call-IsSafe f (negsuc (suc n)) safe = faults-IsSafe

  put_msecs-IsSafe : (begin : ℕ) → IsSafe {y = y} (put_msecs begin)
  unfolding put_msecs
  put_msecs-IsSafe begin = frame-IsSafe (put_msecs begin) (λ s t a e. ground arith)

  pub time_of-IsSafe :
      (f : Builtin → Cmd (Shell y) ℕ) (cmd : Option (List ℕ))
      → ((b : Builtin) → IsSafe (f b))
      → IsSafe (time_of f cmd)
  unfolding time_of
  time_of-IsSafe f none safe = pure-IsSafe _
  time_of-IsSafe f (some cmd) safe =
      bind-IsSafe (gets (λ s. y.clock s.world)) _ (gets-IsSafe _) (λ begin.
        bind-IsSafe (lift (select_cmd builtins (some cmd))) _ (lift-IsSafe _) (λ i.
          bind-IsSafe _ _ (time_call-IsSafe f i safe) (λ status.
            bind-IsSafe _ _ (if-IsSafe (status == 0) _ _ (put_msecs-IsSafe begin) (pure-IsSafe tt))
              (λ u. pure-IsSafe status))))
