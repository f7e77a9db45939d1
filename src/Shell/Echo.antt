-- ===== src/Shell/Echo.antt =====
-- busybox/shell/echo.c: printing a variable or the arguments.
pub mod Plain
use yaup.Base.{
  ℕ, zero, suc, ◌+◌, Bool, true, false, ◌||◌, Option, none, some, List, [], ◌∷◌, ◌++◌,
  if◌then◌else◌, ◌==◌, get_elem?, Run, ok, panic, fault, out_of_fuel, Cmd, ◌>>=◌, ◌>>◌, pure,
  faults, gets, modify, lift,
}
use yaup.Shell.Text.{string_of}
use yaup.Shell.State.{System, Shell, put, value_text}
use yaup.Shell.Env.{find_scan}

unfoldable pub is_quote : ℕ → Bool
is_quote c = (c == b'"') || (c == b'\'')

unfoldable pub put_first : ℕ → Run (List ℕ) → Run (List ℕ)
put_first c (ok text) = ok (c ∷ text)
put_first c (panic m) = panic m
put_first c fault = fault
put_first c out_of_fuel = out_of_fuel

-- Where the loop over an argument's characters stands: at its test, behind a quote or behind a
-- backslash.
pub data Place : Type 0 where
  at_test : Place
  behind_quote : Place
  behind_backslash : Place

-- What the loop does with a character.
pub data Action : Type 0 where
  stop : Action
  skip : Place → Action
  emit : Action

unfoldable pub action : Place → ℕ → Action
action at_test c =
    if c == 0
    then stop
    else (if is_quote c
        then skip behind_quote
        else (if c == 92 then skip behind_backslash else emit))
action behind_quote c = if c == 92 then skip behind_backslash else emit
action behind_backslash c = emit

-- What is printed of one argument, of which `bytes` is left. A character behind a quote and one
-- behind a backslash are printed whatever they are, the NUL included: then the loop goes on
-- behind the string.
unfoldable pub echo_arg : Place → List ℕ → Run (List ℕ)
echo_arg p [] = fault
echo_arg p (c ∷ rest) = elim (action p c) [
  | stop ↦ ok []
  | skip q ↦ echo_arg q rest
  | emit ↦ put_first c (echo_arg at_test rest)
]

module _ {y : System} where
  unfoldable pub echo_args : List (List ℕ) → Cmd (Shell y) ℕ
  echo_args [] = put (10 ∷ []) >> pure 0
  echo_args (arg ∷ args) =
      lift (echo_arg at_test arg) >>= λ text. put (text ++ (32 ∷ [])) >> echo_args args

  unfoldable pub echo_found : Option ℕ → Cmd (Shell y) ℕ
  echo_found none = pure 0
  echo_found (some i) = value_text i >>= λ text. put (text ++ (10 ∷ [])) >> pure 0

  unfoldable pub echo_variable : List ℕ → Cmd (Shell y) ℕ
  echo_variable name = gets (λ s. s.envp_name) >>= λ names.
      lift (find_scan names 0 (string_of name)) >>= λ found. echo_found found

  -- Without an argument the first one is a null pointer that is read.
  unfoldable pub yash_echo : List (List ℕ) → Cmd (Shell y) ℕ
  yash_echo [] = faults
  yash_echo (cmd ∷ []) = faults
  yash_echo (cmd ∷ [] ∷ args) = faults
  yash_echo (cmd ∷ (c ∷ more) ∷ args) =
      if c == b'$' then echo_variable more else echo_args ((c ∷ more) ∷ args)

  unfoldable pub yash_clear : List (List ℕ) → Cmd (Shell y) ℕ
  yash_clear args = put (27 ∷ b'[' ∷ b'H' ∷ 27 ∷ b'[' ∷ b'J' ∷ []) >> pure 0
