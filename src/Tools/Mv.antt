-- ===== src/Tools/Mv.antt =====
-- busybox/mv.c and busybox/ln.c
use yaup.Base.{ℕ, Bool, true, false, Option, none, some, List, [], ◌∷◌, if◌then◌else◌}
use yaup.Errno.{einval, enotdir, einprogress}
use yaup.Kernel.Host.{Stat}
use yaup.Tools.Os.{Os, FilePath}
use yaup.Tools.Program.{
  Prog, Process, ◌>>=◌, ◌>>◌, pure, exits, faults, err, call, stat, s_isreg, s_isdir,
}
use yaup.Tools.Program.Args.{is_option}
use yaup.Tools.Program.Walk.{option_r, last_of, but_last, join, skip_option}

unfoldable pub new_path : FilePath → FilePath → Option FilePath
new_path p1 p2 = join 512 p1 p2

module _ {o : Os} where
  unfoldable pub move_to : FilePath → FilePath → Prog (Process o) (Unit {0})
  move_to src path = call (λ w. o.rename w src path) >>= λ moved. if moved then pure tt else err

  unfoldable pub move_into : FilePath → FilePath → Prog (Process o) (Unit {0})
  move_into src dst = elim (new_path dst src) [ none ↦ faults | some path ↦ move_to src path ]

  unfoldable pub move_source : Bool → Stat → FilePath → FilePath → Prog (Process o) (Unit {0})
  move_source rflag st src dst =
      (if s_isreg (st.st_mode) then move_into src dst else pure tt)
      >> (if s_isdir (st.st_mode)
          then (if rflag then exits einprogress else exits einval)
          else pure tt)

  unfoldable pub move_sources : Bool → Stat → List FilePath → FilePath → Prog (Process o) ℕ
  move_sources rflag st [] dst = pure 0
  move_sources rflag st (src ∷ args) dst = stat src st >>= λ (found, st').
      if found then move_source rflag st' src dst >> move_sources rflag st' args dst else err

  unfoldable pub move_all : Bool → Stat → List FilePath → FilePath → Prog (Process o) ℕ
  move_all rflag st args dst = stat dst st >>= λ (found, st').
      if s_isdir (st'.st_mode)
      then move_sources rflag st' (skip_option rflag args) dst
      else exits enotdir

  abbrev pub linked : Bool → Prog (Process o) ℕ
  linked true = pure 0
  linked false = err

module _ (o : Os) where
  unfoldable pub mv_main : Stat → List FilePath → Prog (Process o) ℕ
  mv_main st [] = exits einval
  mv_main st (a ∷ []) = exits einval
  mv_main st (a ∷ b ∷ args) = elim (option_r a) [
    | none ↦ exits einval
    | some rflag ↦ elim args [
      | [] ↦ move_to a b >> pure 0
      | c ∷ rest ↦ move_all rflag st (but_last a (b ∷ c ∷ rest)) (last_of a (b ∷ c ∷ rest))
    ]
  ]

  -- `argv[2]` and `argv[3]` are linked: with two names, the second one and the null pointer behind it.
  unfoldable pub ln_main : List FilePath → Prog (Process o) ℕ
  ln_main [] = exits einval
  ln_main (a ∷ []) = exits einval
  ln_main (a ∷ b ∷ []) = call (λ w. o.link w b none) >>= linked
  ln_main (a ∷ b ∷ c ∷ []) =
      if is_option 115 a then call (λ w. o.symlink w b c) >>= linked else exits einval
  ln_main (a ∷ b ∷ c ∷ d ∷ args) = call (λ w. o.link w b (some c)) >>= linked
