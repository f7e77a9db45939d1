-- ===== src/Shell/Tests.antt =====
-- The theorems on the environment, `echo` and the commands at a small system.
use yaup.Base.{
  ℕ, ◌<◌, ◌≡◌, refl, List, [], ◌∷◌, ◌++◌, none, some, length, replicate, set, find_index, ok, arith,
}
use yaup.Shell.Text.{text, string_of, same_text, strcmp_eq, strncpy}
use yaup.Shell.State.{Shell}
use yaup.Shell.Env.{
  env_set, env_unset, set_scan, empty, join_args, find_scan, assign, new_value, clear_entry,
}
use yaup.Shell.Env.RoundTrip.{env_set-echo}
use yaup.Shell.Echo.{yash_echo}
use yaup.Shell.Builtins.{builtins}
use yaup.Shell.Sample.{length-replicate, system, names, values, shell}

-- The variable "C" with the value "hi".
abbrev c_name : List ℕ
c_name = 67 ∷ 0 ∷ []

abbrev hi : List ℕ
hi = 104 ∷ 105 ∷ 0 ∷ 9 ∷ []

abbrev with_c : Shell system
with_c = record shell {
  envp_name = set names 2 (some (67 ∷ replicate 31 0));
  envp_value = set values 2 (some (104 ∷ 105 ∷ 32 ∷ replicate 253 0));
}

env_set-hi : env_set (c_name ∷ hi ∷ []) shell ≡ ok (0, with_c)
unfolding env_set new_value assign set_scan join_args string_of strcmp_eq strncpy
env_set-hi = refl

value-fits :
    length (string_of (replicate 256 0) ++ join_args (hi ∷ [])) < length (replicate {A = ℕ} 256 0)
unfolding string_of join_args
value-fits = omega (arith, length-replicate 256)

name-short : length (string_of c_name) < 32
unfolding string_of
name-short = omega arith

env_set-echo_example :
    yash_echo ([] ∷ (b'$' ∷ c_name) ∷ []) with_c
    ≡ ok (
      0,
      record with_c {
        stdout = [] ++ ((string_of (replicate 256 0) ++ join_args (hi ∷ [])) ++ (10 ∷ []));
      },
    )
env_set-echo_example =
    env_set-echo shell c_name hi (replicate 256 0) [] refl (replicate 32 0) refl value-fits
      name-short refl with_c [] env_set-hi

env_unset-b : env_unset ((66 ∷ 0 ∷ []) ∷ []) shell ≡ ok (22, shell)
unfolding env_unset find_scan clear_entry string_of strcmp_eq
env_unset-b = refl

set_scan-c : set_scan names 0 (string_of c_name) ≡ ok (empty 2)
unfolding set_scan string_of strcmp_eq
set_scan-c = refl

-- "hi" and "you"
abbrev args : List (List ℕ × List ℕ)
args = (104 ∷ 105 ∷ [], 1 ∷ []) ∷ (b'y' ∷ b'o' ∷ b'u' ∷ [], []) ∷ []

-- "echo" among "cd" and "echo".
abbrev table : List (List ℕ)
table = (b'c' ∷ b'd' ∷ []) ∷ (b'e' ∷ b'c' ∷ b'h' ∷ b'o' ∷ []) ∷ []

ls_index : find_index (λ t. same_text t (b'l' ∷ b's' ∷ [])) builtins ≡ none
unfolding find_index same_text text
ls_index = refl
