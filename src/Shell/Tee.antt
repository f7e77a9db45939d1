-- ===== src/Shell/Tee.antt =====
-- busybox/tee.c: the input is copied to the output and to files.
use yaup.Base.{ℕ, none, some, List, [], ◌∷◌, map, Cmd, ◌>>=◌, ◌>>◌, pure, faults, gets, modify}
use yaup.Shell.Text.{string_of}
use yaup.Shell.State.{System, Shell, put}

module _ (y : System) where
  unfoldable pub put_all : List (List ℕ) → ℕ → y.World → y.World
  put_all [] c w = w
  put_all (file ∷ files) c w = put_all files c (y.put_char w file c)

  unfoldable pub copy_all : List (List ℕ) → List ℕ → y.World → y.World
  copy_all files [] w = w
  copy_all files (c ∷ cs) w = copy_all files cs (put_all files c w)

module _ {y : System} where
  -- A file that cannot be opened is a null pointer that the cleanup closes.
  unfoldable pub open_all : List (List ℕ) → Cmd (Shell y) (Unit {0})
  open_all [] = pure tt
  open_all (file ∷ files) = gets (λ s. y.create s.world file) >>= λ opened. elim opened [
    | none ↦ faults
    | some world ↦ modify (λ s. record s { world = world }) >> open_all files
  ]

  unfoldable pub tee_files : List (List ℕ) → Cmd (Shell y) ℕ
  tee_files files =
      open_all files
      >> (gets (λ s. s.stdin) >>= λ input.
          put input
          >> modify (λ s. record s { stdin = []; world = copy_all y files input s.world })
          >> pure 0)

  unfoldable pub yash_tee : List (List ℕ) → Cmd (Shell y) ℕ
  yash_tee [] = faults
  yash_tee (cmd ∷ args) = tee_files (map string_of args)
