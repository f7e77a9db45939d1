-- ===== src/Tools/Program/Walk.antt =====
-- What the programs that change files share: the option `-r`, the entries of a directory, and paths
-- that are put together.
use yaup.Base.{
  ℕ, Bool, true, false, ◌||◌, Option, none, some, List, [], ◌∷◌, ◌++◌, length, get_or,
  if◌then◌else◌, ◌==◌, leb,
}
use yaup.Shell.Text.{text, same_text}
use yaup.Tools.Os.{Os, FilePath, Entry}
use yaup.Tools.Program.{Prog, Process, ◌>>=◌, pure}

-- Whether the first argument is `-r`; none if it starts with another `-`.
unfoldable pub option_r : FilePath → Option Bool
option_r a =
    if get_or a 0 0 == 45 then (if get_or a 1 0 == 114 then some true else none) else some false

-- `argv[argc-1]`, and the arguments in front of it.
unfoldable pub last_of : FilePath → List FilePath → FilePath
last_of a [] = a
last_of a (b ∷ args) = last_of b args

unfoldable pub but_last : FilePath → List FilePath → List FilePath
but_last a [] = []
but_last a (b ∷ args) = a ∷ but_last b args

-- The arguments behind the option.
unfoldable pub skip_option : Bool → List FilePath → List FilePath
skip_option false args = args
skip_option true [] = []
skip_option true (a ∷ args) = args

-- `strcmp(d->d_name, ".") == 0 || strcmp(d->d_name, "..") == 0`
unfoldable pub is_dots : List ℕ → Bool
is_dots name = same_text name (text ".") || same_text name (text "..")

-- `sprintf(new, "%s/%s", dir, name)` into `size` bytes, or none if it does not fit.
unfoldable pub join : ℕ → FilePath → FilePath → Option FilePath
join size dir name =
    let path = dir ++ (47 ∷ name) in if leb size (length path) then none else some path

module _ {o : Os} where
  -- The loop over the entries of a directory. A visit says whether the loop goes on.
  unfoldable pub each_entry : (Entry → Prog (Process o) Bool) → List Entry → Prog (Process o) Bool
  each_entry visit [] = pure true
  each_entry visit (d ∷ ds) =
      if is_dots d.d_name
      then each_entry visit ds
      else (visit d >>= λ more. if more then each_entry visit ds else pure false)

  abbrev pub if_more : Bool → Prog (Process o) Bool → Prog (Process o) Bool
  if_more true m = m
  if_more false m = pure false
