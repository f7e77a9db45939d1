-- ===== src/Tools/Ls.antt =====
-- busybox/ls.c. The array of pointers has 512 places; none is a null pointer.
pub mod Faults
use yaup.Base.{
  ℕ, Bool, true, false, Option, none, some, List, [], ◌∷◌, ◌++◌, length, map, if◌then◌else◌, leb,
}
use yaup.Errno.{einval, enotdir}
use yaup.Shell.Text.{same_text}
use yaup.Kernel.Host.{Stat}
use yaup.Tools.Os.{Os, FilePath, Entry}
use yaup.Tools.Program.{
  Prog, Process, ◌>>=◌, ◌>>◌, pure, exits, faults, err, stat, opendir, put, s_isdir,
}

module _ {o : Os} where
  -- A null pointer ends the array; the entries and it must fit.
  unfoldable pub alpha_sort : List Entry → Prog (Process o) (List (Option Entry))
  alpha_sort ds = if leb 512 (length ds) then faults else pure (map some ds ++ (none ∷ []))

  -- `while (strcmp((*entries)->d_name, "") != 0)`. The pointer that is freed behind the loop is not
  -- the one that was allocated, unless the loop is left at once. `moved` says so.
  unfoldable pub list_until_empty : Bool → List (Option Entry) → Prog (Process o) (Unit {0})
  list_until_empty moved [] = faults
  list_until_empty moved (none ∷ entries) = faults
  list_until_empty moved (some d ∷ entries) =
      if same_text d.d_name []
      then (if moved then faults else pure tt)
      else put (d.d_name ++ (10 ∷ [])) >> list_until_empty true entries

  -- `while (entries != NULL)`: the pointer into the array is never null.
  unfoldable pub list_all : List (Option Entry) → Prog (Process o) (Unit {0})
  list_all [] = faults
  list_all (none ∷ entries) = faults
  list_all (some d ∷ entries) = put (d.d_name ++ (10 ∷ [])) >> list_all entries

  unfoldable pub list_dirs : Stat → List FilePath → Prog (Process o) ℕ
  list_dirs st [] = pure 0
  list_dirs st (a ∷ args) = stat a st >>= λ (found, st').
      if s_isdir (st'.st_mode)
      then (opendir a >>= λ (opened, ds).
          if opened
          then put (a ++ (58 ∷ 10 ∷ [])) >> (alpha_sort ds >>= list_all) >> list_dirs st' args
          else err)
      else exits enotdir

module _ (o : Os) where
  unfoldable pub ls_main : Stat → List FilePath → Prog (Process o) ℕ
  ls_main st [] = exits einval
  ls_main st (a ∷ []) = opendir a >>= λ (opened, ds).
      if opened then (alpha_sort ds >>= list_until_empty false) >> pure 0 else err
  ls_main st (a ∷ b ∷ args) = list_dirs st (a ∷ b ∷ args)
