-- ===== src/Tools/Cp.antt =====
-- busybox/cp.c
pub mod Copies
use yaup.Base.{
  ℕ, zero, suc, ◌+◌, ◌-◌, Bool, true, false, Option, none, some, List, [], ◌∷◌, ◌++◌, length,
  get_or, if◌then◌else◌, ◌==◌, leb,
}
use yaup.Errno.{einval}
use yaup.Shell.Text.{text}
use yaup.Kernel.Host.{Stat}
use yaup.Tools.Os.{Os, FilePath, Entry}
use yaup.Tools.Program.{
  Prog, Process, done, ◌>>=◌, ◌>>◌, pure, exits, faults, runs_on, err, call, stat, open_read,
  bytes_of, opendir, chdir, s_isreg, s_isdir,
}
use yaup.Tools.Program.Walk.{option_r, last_of, but_last, join, skip_option, each_entry}

-- The path in a directory, in a buffer of 128 bytes. `dst[dst_len-1]` of an empty name is no place
-- of the string.
unfoldable pub new_dst : FilePath → FilePath → Option FilePath
new_dst [] src = none
new_dst (d ∷ dst) src =
    if get_or (d ∷ dst) (length dst) 0 == 47
    then (let path = (d ∷ dst) ++ src in if leb 128 (length path) then none else some path)
    else join 128 (d ∷ dst) src

module _ {o : Os} where
  abbrev pub write_to : FilePath → List ℕ → Prog (Process o) (Unit {0})
  write_to path cs s = done tt (record s { world = o.append s.world path cs })

  -- The source is read after the destination is opened and emptied.
  unfoldable pub file_to_file : FilePath → FilePath → Prog (Process o) (Unit {0})
  file_to_file src dst = open_read src >>= λ opened.
      if opened
      then (call (λ w. o.open_write w dst) >>= λ created.
          if created then (bytes_of src >>= λ cs. write_to dst cs) else err)
      else err

  unfoldable pub file_to_dir : FilePath → FilePath → Prog (Process o) (Unit {0})
  file_to_dir src dst = elim (new_dst dst src) [ none ↦ faults | some path ↦ file_to_file src path ]

  abbrev pub if_fits : Option FilePath → Prog (Process o) Bool → Prog (Process o) Bool
  if_fits none m = faults
  if_fits (some path) m = m

  -- `fuel` bounds the depth of the directories. The result says whether it is 0 and not -1.
  unfoldable pub dir_to_dir : ℕ → FilePath → FilePath → Prog (Process o) Bool
  dir_to_dir zero src dst = runs_on
  dir_to_dir (suc fuel) src dst = opendir src >>= λ (opened, ds).
      if opened
      then if_fits (new_dst dst src) (do
        chdir src
        more ←
            each_entry
              (λ d.
                (if d.is_reg then file_to_dir d.d_name dst else pure tt)
                >> (if d.is_dir then dir_to_dir fuel d.d_name dst else pure true))
              ds
        if more then (chdir (text "..") >> pure true) else pure false)
      else pure false

  -- One source of several.
  unfoldable pub copy_source : ℕ → Bool → Stat → FilePath → FilePath → Prog (Process o) (Unit {0})
  copy_source fuel rflag st src dst =
      (if s_isreg (st.st_mode) then file_to_dir src dst else pure tt)
      >> (if s_isdir (st.st_mode)
          then (if rflag then dir_to_dir fuel src dst >> pure tt else exits einval)
          else pure tt)

  unfoldable pub copy_sources :
      ℕ → Bool → Stat → List FilePath → FilePath → Prog (Process o) (Unit {0})
  copy_sources fuel rflag st [] dst = pure tt
  copy_sources fuel rflag st (src ∷ args) dst = stat src st >>= λ r.
      copy_source fuel rflag r.1 src dst >> copy_sources fuel rflag r.1 args dst

  unfoldable pub copy_into : ℕ → Bool → Stat → List FilePath → FilePath → Prog (Process o) ℕ
  copy_into fuel rflag st args dst = stat dst st >>= λ r.
      if s_isdir (r.1.st_mode)
      then copy_sources fuel rflag r.1 (skip_option rflag args) dst >> pure 0
      else exits einval

module _ (o : Os) where
  unfoldable pub cp_main : ℕ → Stat → List FilePath → Prog (Process o) ℕ
  cp_main fuel st [] = exits einval
  cp_main fuel st (a ∷ []) = exits einval
  cp_main fuel st (a ∷ b ∷ args) = elim (option_r a) [
    | none ↦ exits einval
    | some rflag ↦ elim args [
      | [] ↦ file_to_file a b >> pure 0
      | c ∷ rest ↦ copy_into fuel rflag st (but_last a (b ∷ c ∷ rest)) (last_of a (b ∷ c ∷ rest))
    ]
  ]
