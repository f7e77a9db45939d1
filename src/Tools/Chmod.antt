-- ===== src/Tools/Chmod.antt =====
-- busybox/chmod.c. Strings are given without their NUL.
pub mod Refuses
pub mod Changes
use yaup.Base.{
  ℕ, zero, suc, ◌+◌, ◌-◌, ◌*◌, ◌%◌, ◌^◌, List, [], ◌∷◌, ◌++◌, length, get_or, Bool, true, false,
  ◌||◌, if◌then◌else◌, ◌==◌, ltb, Run, ok, fault,
}
use yaup.Errno.{einval}
use yaup.Shell.Text.{text}
use yaup.Kernel.Host.{Stat}
use yaup.Tools.Os.{Os, FilePath}
use yaup.Tools.Program.{
  Prog, Process, ◌>>=◌, ◌>>◌, pure, exits, runs_on, err, call, stat, opendir, chdir, put,
}
use yaup.Tools.Program.Args.{is_option}
use yaup.Tools.Program.Print.{run}
use yaup.Tools.Program.Walk.{each_entry, if_more}

-- -1 as a `mode_t`
abbrev pub no_mode : ℕ
no_mode = 2 ^ 32 - 1

-- `l` from `length arg` down; a place outside the string's object is a fault.
unfoldable pub parse_loop : List ℕ → ℕ → ℕ → ℕ → Run ℕ
parse_loop arg zero i mode =
    let c = get_or (arg ++ (0 ∷ [])) 0 0 in if ltb c 48 || ltb 55 c then ok no_mode else fault
parse_loop arg (suc l) i mode =
    let c = get_or (arg ++ (0 ∷ [])) (suc l) 0 in
    let d = (get_or arg l 0 + 2 ^ 32 - 48) % 2 ^ 32 in
    let rest = parse_loop arg l (i + 1) ((mode + d * 8 ^ i) % 2 ^ 32) in
    if ltb c 48 || ltb 55 c then ok no_mode else rest

unfoldable pub parse_mode : List ℕ → Run ℕ
parse_mode arg = parse_loop arg (length arg) 0 0

unfoldable pub retained_mode : FilePath → FilePath → List ℕ
retained_mode a mode =
    text "mode of '" ++ (a ++ (text "' retained as '" ++ (mode ++ (text "'" ++ (10 ∷ [])))))

module _ {o : Os} where
  -- `fuel` bounds the depth. For each entry the mode of `path` is changed.
  unfoldable pub chmod_rec : ℕ → FilePath → ℕ → Prog (Process o) Bool
  chmod_rec zero path mode = runs_on
  chmod_rec (suc fuel) path mode = opendir path >>= λ (opened, ds).
      if opened
      then (do
        chdir path
        more ←
            each_entry
              (λ d. (if d.is_dir then chmod_rec fuel d.d_name mode else pure true) >>= λ more'.
                if_more more' (call (λ w. o.chmod w path mode)))
              ds
        if more then (chdir (text "..") >> pure true) else pure false)
      else pure false

  unfoldable pub chmod_loop : ℕ → Bool → FilePath → ℕ → Stat → List FilePath → Prog (Process o) ℕ
  chmod_loop depth rflag arg mode st [] = pure 0
  chmod_loop depth rflag arg mode st (a ∷ args) = stat a st >>= λ (found, st').
      let onward = chmod_loop depth rflag arg mode st' args in
      if st'.st_mode == mode
      then put (retained_mode a arg) >> onward
      else (if rflag then chmod_rec depth a mode else call (λ w. o.chmod w a mode)) >>= λ changed.
          if changed then onward else err

module _ (o : Os) where
  -- The test `mode < 0` of an unsigned number never holds.
  unfoldable pub chmod_main : ℕ → Stat → List FilePath → Prog (Process o) ℕ
  chmod_main depth st [] = exits einval
  chmod_main depth st (a ∷ []) = exits einval
  chmod_main depth st (a ∷ b ∷ args) =
      if is_option 114 a
      then (run (parse_mode b) >>= λ mode. chmod_loop depth true b mode st args)
      else (run (parse_mode a) >>= λ mode. chmod_loop depth false a mode st (b ∷ args))
