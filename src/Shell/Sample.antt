-- ===== src/Shell/Sample.antt =====
-- A small system and shell for the tests.
use yaup.Base.{
  ℕ, zero, suc, ◌+◌, ◌≡◌, refl, ap, List, [], ◌∷◌, Option, none, some, length, replicate, arith,
}
use yaup.Shell.Text.Laws.{IsText}
use yaup.Shell.State.{System, Shell}
use yaup.Shell.Line.Read.{IsGranting}

abbrev pub zeros : ℕ → Option (List ℕ)
zeros n = some (replicate n 0)

pub length-replicate : (n : ℕ) → length (replicate {A = ℕ} n 0) ≡ n
length-replicate zero = refl
length-replicate (suc n) = ap suc (length-replicate n)

pub zeros-IsGranting : IsGranting zeros
zeros-IsGranting n = (replicate n 0, refl, length-replicate n)

-- Fresh memory is zero, every program succeeds, and no directory can be read.
abbrev pub system : System
system = record {
  World = ℕ;
  malloc = λ w n. zeros n;
  chdir = λ w path. (0, w);
  sleep = λ w n. (0, w + n);
  clock = λ w. w;
  create = λ w path. some w;
  put_char = λ w path c. w;
  setuid = λ w uid. w + uid;
  setgid = λ w gid. w;
  spawn = λ w program args values. some (0, w);
  entries = λ w dir. none;
}

-- "A" and "B", and two free entries.
abbrev pub names : List (Option (List ℕ))
names = some (65 ∷ 0 ∷ []) ∷ some (66 ∷ 0 ∷ []) ∷ none ∷ none ∷ []

abbrev pub values : List (Option (List ℕ))
values = some (49 ∷ 0 ∷ []) ∷ some (50 ∷ 0 ∷ []) ∷ none ∷ none ∷ []

abbrev pub shell : Shell system
shell = record { envp_name = names; envp_value = values; stdin = []; stdout = []; world = 5 }

-- "ls -l"
abbrev pub command : List ℕ
command = b'l' ∷ b's' ∷ 32 ∷ b'-' ∷ b'l' ∷ []

pub command-IsText : IsText command
command-IsText = (omega arith, (omega arith, (omega arith, (omega arith, (omega arith, tt)))))

abbrev pub echo_name : List ℕ
echo_name = b'e' ∷ b'c' ∷ b'h' ∷ b'o' ∷ []

pub echo_name-IsText : IsText echo_name
echo_name-IsText = (omega arith, (omega arith, (omega arith, (omega arith, tt))))
