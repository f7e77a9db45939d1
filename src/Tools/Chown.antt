-- ===== src/Tools/Chown.antt =====
-- busybox/chown.c
pub mod Ends
use yaup.Base.{ℕ, zero, suc, ◌-◌, ◌^◌, Bool, true, false, List, [], ◌∷◌, ◌++◌, if◌then◌else◌, ◌==◌}
use yaup.Errno.{einval}
use yaup.Shell.Text.{text}
use yaup.Kernel.Host.{Stat}
use yaup.Tools.Os.{Os, FilePath}
use yaup.Tools.Program.{
  Prog, Process, ◌>>=◌, ◌>>◌, pure, exits, runs_on, err, call, stat, opendir, chdir, put,
}
use yaup.Tools.Program.Args.{is_option}
use yaup.Tools.Program.Walk.{each_entry, if_more}

-- -1 as an owner or a group, which leaves it as it is.
abbrev pub no_id : ℕ
no_id = 2 ^ 32 - 1

unfoldable pub get_uid : FilePath → ℕ
get_uid uid = 1000

unfoldable pub retained_owner : FilePath → FilePath → List ℕ
retained_owner a owner =
    text "ownership of '" ++ (a ++ (text "' retained as '" ++ (owner ++ (text "'" ++ (10 ∷ [])))))

module _ {o : Os} where
  -- `fuel` bounds the depth. For each entry the owner of `path` is changed.
  unfoldable pub chown_rec : ℕ → FilePath → ℕ → Prog (Process o) Bool
  chown_rec zero path owner = runs_on
  chown_rec (suc fuel) path owner = opendir path >>= λ (opened, ds).
      if opened
      then (do
        chdir path
        more ←
            each_entry
              (λ d. (if d.is_dir then chown_rec fuel d.d_name owner else pure true) >>= λ more'.
                if_more more' (call (λ w. o.chown w path owner no_id)))
              ds
        if more then (chdir (text "..") >> pure true) else pure false)
      else pure false

  -- `i` moves on only at a file whose owner is the one asked for: `fuel` bounds the rounds, and
  -- `depth` the directories.
  unfoldable pub chown_loop :
      ℕ → ℕ → Bool → FilePath → ℕ → Stat → List FilePath → Prog (Process o) ℕ
  chown_loop zero depth rflag owner uid st args = runs_on
  chown_loop (suc fuel) depth rflag owner uid st [] = pure 0
  chown_loop (suc fuel) depth rflag owner uid st (a ∷ args) = stat a st >>= λ (found, st').
      let onward = chown_loop fuel depth rflag owner uid st' args in
      let again = chown_loop fuel depth rflag owner uid st' (a ∷ args) in
      if st'.st_uid == uid
      then put (retained_owner a owner) >> onward
      else (if rflag then chown_rec depth a uid else call (λ w. o.chown w a uid st'.st_gid))
        >>= λ changed. if changed then again else err

module _ (o : Os) where
  unfoldable pub chown_main : ℕ → ℕ → Stat → List FilePath → Prog (Process o) ℕ
  chown_main fuel depth st [] = exits einval
  chown_main fuel depth st (a ∷ []) = exits einval
  chown_main fuel depth st (a ∷ b ∷ args) =
      if is_option 114 a
      then chown_loop fuel depth true b (get_uid b) st args
      else chown_loop fuel depth false a (get_uid a) st (b ∷ args)
