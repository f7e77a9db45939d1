-- ===== src/Tools/Head.antt =====
-- busybox/head.c and busybox/tail.c
pub mod Lines
use yaup.Base.{
  ℕ, zero, suc, ◌+◌, ◌^◌, Bool, true, false, ◌&&◌, not, Option, none, some, List, [], ◌∷◌, length,
  get_or, if◌then◌else◌, ◌==◌, ltb,
}
use yaup.Errno.{eisdir, einval, einprogress}
use yaup.Shell.Text.{atoi, text}
use yaup.Kernel.Host.{Stat}
use yaup.Tools.Os.{Os, FilePath}
use yaup.Tools.Program.{Prog, Process, ◌>>=◌, ◌>>◌, pure, exits, faults, running, done, put}
use yaup.Tools.Program.Args.{for_files}

-- `i < n` for a count `i` and an `int n`, which is given modulo 2 ^ 32.
abbrev pub below : ℕ → ℕ → Bool
below i n = ltb i n && ltb n (2 ^ 31)

-- `while (fgetc(stdin) != ' ');` for a number of rounds: what is left of the input, or none if the
-- loop goes on. At its end the input gives EOF again and again.
unfoldable pub wait_space : ℕ → List ℕ → Option (List ℕ)
wait_space zero stdin = none
wait_space (suc fuel) [] = wait_space fuel []
wait_space (suc fuel) (c ∷ stdin) =
    let rest = wait_space fuel stdin in if c == 32 then some stdin else rest

module _ {o : Os} where
  -- A wait that is not over after a round for each character of the input is never over.
  unfoldable pub wait : Prog (Process o) (Unit {0})
  wait s = elim (wait_space (length s.stdin) s.stdin) [
    | none ↦ running
    | some rest ↦ done tt (record s { stdin = rest })
  ]

  -- The loop from the character that is read and not yet printed on.
  unfoldable pub head_loop : List ℕ → ℕ → ℕ → ℕ → Prog (Process o) (Unit {0})
  head_loop [] i lines max_lines = pure tt
  head_loop (c ∷ fp) i lines max_lines =
      let i' = if get_or fp 0 0 == 10 then i + 1 else i in
      let rest = head_loop fp i' lines max_lines in
      if below i lines
      then put (c ∷ []) >> (if below i' max_lines then rest else wait >> rest)
      else pure tt

  -- `atoi` of a null pointer is a fault.
  unfoldable pub head_until : Option (List ℕ) → List ℕ → ℕ → Prog (Process o) (Unit {0})
  head_until none fp lines = faults
  head_until (some columns) fp lines = head_loop fp 0 lines (atoi columns)

  unfoldable pub head : List ℕ → ℕ → Prog (Process o) (Unit {0})
  head fp lines s = head_until (o.getenv s.world (text "COLUMNS")) fp lines s

  unfoldable pub tail : List ℕ → ℕ → Prog (Process o) (Unit {0})
  tail fp lines = exits einprogress

-- The argument behind the program's name without its `-`, or none if it has none.
unfoldable pub count_of : FilePath → Option ℕ
count_of [] = none
count_of (c ∷ cs) = if c == 45 then some (atoi cs) else none

module _ (o : Os) where
  unfoldable pub head_main : Stat → List FilePath → Prog (Process o) ℕ
  head_main st (n ∷ a ∷ args) = elim (count_of n) [
    | none ↦ exits eisdir
    | some lines ↦ for_files o eisdir (λ st' name fp. head fp lines) st (a ∷ args) >> pure 0
  ]
  head_main st args = exits einval

  unfoldable pub tail_main : Stat → List FilePath → Prog (Process o) ℕ
  tail_main st (n ∷ a ∷ args) = elim (count_of n) [
    | none ↦ exits einval
    | some lines ↦ for_files o eisdir (λ st' name fp. tail fp lines) st (a ∷ args) >> pure 0
  ]
  tail_main st args = exits 0
