-- ===== src/Shell/State.antt =====
-- busybox/shell/sh.h: the state of the shell, and the calls of the operating system that it makes.
use yaup.Base.{ℕ, Option, List, ◌++◌, get_elem?, Cmd, ◌>>=◌, pure, modify, gets, deref}
use yaup.Shell.Text.{string_of}

-- Indices of the environment's variables.
abbrev pub who_var : ℕ
who_var = 0

abbrev pub uid_var : ℕ
uid_var = 1

abbrev pub gid_var : ℕ
gid_var = 2

abbrev pub home_var : ℕ
home_var = 3

abbrev pub path_var : ℕ
path_var = 4

abbrev pub pwd_var : ℕ
pwd_var = 5

abbrev pub ret_var : ℕ
ret_var = 6

abbrev pub shll_var : ℕ
shll_var = 7

abbrev pub max_env : ℕ
max_env = 15

-- A path and an argument are strings; none is a null pointer.
pub record System : Type 1 where
  -- Processes, files and memory.
  pub World : Type 0
  -- What an allocation holds, or none.
  pub malloc : World → ℕ → Option (List ℕ)
  -- 0 or errno.
  pub chdir : World → Option (List ℕ) → ℕ × World
  pub setuid : World → ℕ → World
  pub setgid : World → ℕ → World
  -- The seconds that are left.
  pub sleep : World → ℕ → ℕ × World
  pub clock : World → ℕ
  -- `fopen` for writing, or none, and `fputc` to the file that is open at a path.
  pub create : World → List ℕ → Option World
  pub put_char : World → List ℕ → ℕ → World
  -- `fork`, `execvpe` and `waitpid` with the program, which is `argv[0]` too, the other arguments
  -- and the environment: the child's status, or none when there is no child.
  pub spawn : World → Option (List ℕ) → List (List ℕ) → List (Option (List ℕ)) → Option (ℕ × World)
  -- The names that `readdir` gives, or none when `opendir` fails.
  pub entries : World → List ℕ → Option (List (List ℕ))

-- The tables of the environment hold objects: their bytes, or none for a null pointer.
pub record Shell (y : System) : Type 0 where
  pub envp_name : List (Option (List ℕ))
  pub envp_value : List (Option (List ℕ))
  pub stdin : List ℕ
  pub stdout : List ℕ
  pub world : y.World

module _ {y : System} where
  abbrev pub put : List ℕ → Cmd (Shell y) (Unit {0})
  put text = modify (λ s. record s { stdout = s.stdout ++ text })

  -- `%s` of an environment's value. A null pointer prints as "(null)" in some libraries and is a
  -- fault here.
  abbrev pub value_text : ℕ → Cmd (Shell y) (List ℕ)
  value_text i = gets (λ s. get_elem? s.envp_value i) >>= λ slot.
      deref slot >>= λ value. deref value >>= λ bytes. pure (string_of bytes)
