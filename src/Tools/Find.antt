-- ===== src/Tools/Find.antt =====
-- busybox/find.c. `path` holds the string that is in its buffer of 128 bytes.
pub mod Flat
use yaup.Base.{
  ℕ, zero, suc, Bool, true, false, Option, none, some, List, [], ◌∷◌, ◌++◌, length, if◌then◌else◌,
  ◌==◌, leb, ℤ, pos, negsuc,
}
use yaup.Errno.{einval, enotdir}
use yaup.Shell.Text.{text, same_text}
use yaup.Kernel.Host.{Stat}
use yaup.Tools.Os.{Os, FilePath, Entry}
use yaup.Tools.Program.{
  Prog, Process, ◌>>=◌, ◌>>◌, pure, exits, faults, runs_on, err, stat, opendir, chdir, put, s_isdir,
}
use yaup.Tools.Program.Walk.{is_dots}

unfoldable pub is_zero : ℤ → Bool
is_zero (pos n) = n == 0
is_zero (negsuc n) = false

module _ {o : Os} where
  -- The loop over the entries with `search` for the call on a directory in it. A result that is
  -- not 0, -1 included, makes `sprintf` read the buffer that it writes: a fault. The loop's result
  -- is a result of `find`, or none at its end.
  unfoldable pub find_loop :
      (FilePath → List ℕ → Prog (Process o) (ℤ × List ℕ))
      → List ℕ
      → List Entry
      → List ℕ
      → Prog (Process o) (Option ℤ × List ℕ)
  find_loop search name [] path = pure (none, path)
  find_loop search name (d ∷ ds) path =
      if is_dots d.d_name
      then find_loop search name ds path
      else (if same_text d.d_name name
          then (if leb 128 (length (path ++ d.d_name))
              then faults
              else pure (some (pos 1), path ++ d.d_name))
          else (if d.is_dir
              then (search d.d_name path >>= λ (r, path').
                  if is_zero r then find_loop search name ds path' else faults)
              else find_loop search name ds path))

  -- `fuel` bounds the depth of the directories.
  unfoldable pub find : ℕ → List ℕ → FilePath → List ℕ → Prog (Process o) (ℤ × List ℕ)
  find zero name root path = runs_on
  find (suc fuel) name root path = opendir root >>= λ (opened, ds).
      if opened
      then (chdir root >> find_loop (find fuel name) name ds path >>= λ (r, path'). elim r [
        | none ↦ chdir (text "..") >> pure (pos 0, path')
        | some z ↦ pure (z, path')
      ])
      else pure (negsuc 0, path)

module _ (o : Os) where
  -- `path` is the string that the allocated memory holds.
  unfoldable pub find_main : ℕ → List ℕ → Stat → List FilePath → Prog (Process o) ℕ
  find_main fuel path st (name ∷ root ∷ []) = stat root st >>= λ (found, st').
      if found
      then (if s_isdir (st'.st_mode)
          then (find fuel name root path >>= λ (r, path').
              (if is_zero r then put (name ++ text " not found\n") else put path') >> pure 0)
          else exits enotdir)
      else err
  find_main fuel path st args = exits einval
