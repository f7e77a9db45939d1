-- ===== src/Tools/Chgrp.antt =====
-- busybox/chgrp.c
pub mod Group
pub mod Ends
use yaup.Base.{
  ℕ, zero, suc, ◌+◌, ◌-◌, ◌^◌, Bool, true, false, List, [], ◌∷◌, ◌++◌, length, set, drop, ltb, leb,
  if◌then◌else◌, ◌==◌, Run, ok, panic, fault, out_of_fuel,
}
use yaup.Errno.{einval}
use yaup.Shell.Text.{text, string_of, strcmp_eq, atoi}
use yaup.Kernel.Host.{Stat}
use yaup.Tools.Os.{Os, FilePath}
use yaup.Tools.Program.{
  Prog, Process, ◌>>=◌, ◌>>◌, pure, exits, runs_on, err, call, stat, open_read, bytes_of, opendir,
  chdir, put,
}
use yaup.Tools.Program.Args.{is_option}
use yaup.Tools.Program.Print.{run}
use yaup.Tools.Program.Scan.{then_run}
use yaup.Tools.Program.Walk.{each_entry, if_more}
use yaup.Tools.Chown.{no_id}

-- A buffer, whether the end of the stream was met, and what is left of the stream.
pub record Field : Type 0 where
  pub buff : List ℕ
  pub eof : Bool
  pub left : List ℕ

abbrev pub is_empty : List ℕ → Bool
is_empty [] = true
is_empty (c ∷ cs) = false

-- `buff[i] = c`, past the buffer a fault.
abbrev pub put_byte : {A : Type 0} → List ℕ → ℕ → ℕ → (List ℕ → Run A) → Run A
put_byte buff i c k = if ltb i (length buff) then k (set buff i c) else fault

-- The loop with `i` characters in the buffer.
unfoldable pub delim_loop : ℕ → ℕ → ℕ → List ℕ → List ℕ → Run Field
delim_loop sz delim i buff [] =
    put_byte buff i 0 (λ buff'. ok (record { buff = buff'; eof = true; left = [] }))
delim_loop sz delim i buff (c ∷ str) =
    if c == delim
    then put_byte buff i 0 (λ buff'. ok (record { buff = buff'; eof = false; left = str }))
    else put_byte buff i c (λ buff'.
      let more = delim_loop sz delim (i + 1) buff' str in
      if ltb sz (i + 1)
      then ok (record { buff = buff'; eof = is_empty str; left = drop 1 str })
      else more)

unfoldable pub get_delim : List ℕ → ℕ → ℕ → List ℕ → Run Field
get_delim buff sz delim str = delim_loop sz delim 0 buff str

-- The buffers `gname`, `gpass` and `gid`.
pub record Buffers : Type 0 where
  pub gname : List ℕ
  pub gpass : List ℕ
  pub gid : List ℕ

-- -1 as a `gid_t`
abbrev pub gid_result : Bool → Buffers → ℕ
gid_result true bs = atoi (string_of bs.gid)
gid_result false bs = no_id

-- `while (!feof(groups))` for a number of rounds.
unfoldable pub gid_loop : ℕ → List ℕ → Buffers → Bool → Bool → List ℕ → Run ℕ
gid_loop fuel str bs found true groups = ok (gid_result found bs)
gid_loop zero str bs found false groups = out_of_fuel
gid_loop (suc fuel) str bs found false groups = then_run (get_delim bs.gname 64 58 groups) (λ f.
    then_run (strcmp_eq f.buff str) (λ same.
      if same
      then then_run (get_delim bs.gpass 512 58 f.left) (λ p.
        then_run (get_delim bs.gid 5 58 p.left) (λ g.
          gid_loop fuel str (record { gname = f.buff; gpass = p.buff; gid = g.buff }) true g.eof
            g.left))
      else then_run (get_delim bs.gpass 512 10 f.left) (λ p.
        gid_loop fuel str (record bs { gname = f.buff; gpass = p.buff }) found p.eof p.left)))

-- A round for each byte of the file and one more are enough.
unfoldable pub gid_in : Buffers → List ℕ → List ℕ → Run ℕ
gid_in bs groups str = gid_loop (suc (suc (length groups))) str bs false false groups

unfoldable pub retained_group : FilePath → FilePath → List ℕ
retained_group a group =
    text "group ownership of '"
    ++ (a ++ (text "' retained as '" ++ (group ++ (text "'" ++ (10 ∷ [])))))

module _ {o : Os} where
  -- `bs` is what the buffers hold at first.
  unfoldable pub get_gid : Buffers → FilePath → Prog (Process o) ℕ
  get_gid bs str = open_read (text "/etc/group") >>= λ opened.
      if opened
      then (bytes_of (text "/etc/group") >>= λ groups. run (gid_in bs groups str))
      else err

  -- `fuel` bounds the depth.
  unfoldable pub chgrp_rec : ℕ → FilePath → ℕ → Prog (Process o) Bool
  chgrp_rec zero path gid = runs_on
  chgrp_rec (suc fuel) path gid = opendir path >>= λ (opened, ds).
      if opened
      then (do
        chdir path
        more ←
            each_entry
              (λ d. (if d.is_dir then chgrp_rec fuel d.d_name gid else pure true) >>= λ more'.
                if_more more' (call (λ w. o.chown w d.d_name no_id gid)))
              ds
        if more then (chdir (text "..") >> pure true) else pure false)
      else pure false

  unfoldable pub chgrp_loop : ℕ → Bool → FilePath → ℕ → Stat → List FilePath → Prog (Process o) ℕ
  chgrp_loop depth rflag group gid st [] = pure 0
  chgrp_loop depth rflag group gid st (a ∷ args) = stat a st >>= λ (found, st').
      let onward = chgrp_loop depth rflag group gid st' args in
      if gid == st'.st_gid
      then put (retained_group a group) >> onward
      else (if rflag then chgrp_rec depth a gid else call (λ w. o.chown w a st'.st_uid gid))
        >>= λ changed. if changed then onward else err

module _ (o : Os) where
  -- The test `gid < 0` of an unsigned number never holds.
  unfoldable pub chgrp_main : ℕ → Buffers → Stat → List FilePath → Prog (Process o) ℕ
  chgrp_main depth bs st [] = exits einval
  chgrp_main depth bs st (a ∷ []) = exits einval
  chgrp_main depth bs st (a ∷ b ∷ args) =
      if is_option 114 a
      then (get_gid bs b >>= λ gid. chgrp_loop depth true b gid st args)
      else (get_gid bs a >>= λ gid. chgrp_loop depth false a gid st (b ∷ args))
