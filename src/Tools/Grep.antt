-- ===== src/Tools/Grep.antt =====
-- busybox/grep.c
pub mod Sound
pub mod Ends
use yaup.Base.{
  ℕ, zero, suc, ◌+◌, Bool, true, false, ◌||◌, ◌&&◌, not, Option, none, some, List, [], ◌∷◌, ◌++◌,
  length, if◌then◌else◌, ◌==◌, ltb, leb,
}
use yaup.Errno.{eisdir, einval}
use yaup.Shell.Text.{string_of}
use yaup.Tools.Program.Scan.{skip_space}
use yaup.Kernel.Host.{Stat}
use yaup.Tools.Os.{Os, FilePath}
use yaup.Tools.Program.{Prog, Process, ◌>>=◌, ◌>>◌, pure, exits, faults, runs_on, put}
use yaup.Tools.Program.Args.{for_files}

unfoldable pub parse_regex : List ℕ → List ℕ
parse_regex reg = reg

-- `while (buff[i] != '\0')` from a place of the line on, with what is left of the pattern from `j` on.
-- The value is `match` after the loop.
unfoldable pub match_loop : List ℕ → List ℕ → Bool → List ℕ → Bool
match_loop pattern p found [] = found
match_loop pattern [] found (c ∷ cs) = match_loop pattern pattern false cs
match_loop pattern (d ∷ []) found (c ∷ cs) =
    let back = match_loop pattern pattern false cs in if c == d then true else back
match_loop pattern (d ∷ e ∷ p) found (c ∷ cs) =
    let back = match_loop pattern pattern false cs in
    let on = match_loop pattern (e ∷ p) true cs in if c == d then on else back

-- `fscanf(fp, "%[^\n]\n", buff)`: the characters up to a newline, then white space is skipped.
unfoldable pub scan_line : List ℕ → List ℕ
scan_line [] = []
scan_line (c ∷ fp) = let rest = scan_line fp in if c == 10 then [] else c ∷ rest

unfoldable pub after_line : List ℕ → List ℕ
after_line [] = []
after_line (c ∷ fp) = let rest = after_line fp in if c == 10 then skip_space (c ∷ fp) else rest

-- What holds after a scan that takes the line `line`, and what if it takes nothing.
abbrev pub take_scan : List ℕ → List ℕ → List ℕ → List ℕ
take_scan [] taken kept = kept
take_scan (c ∷ line) taken kept = taken

module _ {o : Os} where
  -- `while (!feof(fp))` for a number of rounds. `buff` and `found` are what the variables hold. A
  -- line that starts with a newline is not taken: `fscanf` gives nothing and leaves the newline. The
  -- end of the file counts as met when a round leaves nothing.
  unfoldable pub grep_loop : ℕ → List ℕ → List ℕ → Bool → List ℕ → Prog (Process o) (Unit {0})
  grep_loop zero pattern buff found fp = runs_on
  grep_loop (suc fuel) pattern buff found fp =
      let line = scan_line fp in
      let held = take_scan line line buff in
      let left = take_scan line (after_line fp) fp in
      let found' = match_loop pattern pattern found (string_of held) in
      let rest = grep_loop fuel pattern held found' left in
      if leb 512 (length line)
      then faults
      else (if found' then put (string_of held ++ (10 ∷ [])) else pure tt)
        >> elim left [ [] ↦ pure tt | c ∷ cs ↦ rest ]

  unfoldable pub grep : ℕ → List ℕ → Bool → List ℕ → List ℕ → Prog (Process o) (Unit {0})
  grep fuel buff found fp pattern = grep_loop fuel pattern buff found fp

module _ (o : Os) where
  -- `buff` and `found` are what the allocated buffer and the variable `match` hold at first in the
  -- call for a file.
  unfoldable pub grep_main :
      ℕ → (FilePath → List ℕ) → (FilePath → Bool) → Stat → List FilePath → Prog (Process o) ℕ
  grep_main fuel buff found st (reg ∷ a ∷ args) =
      for_files o eisdir (λ st' name fp. grep fuel (buff name) (found name) fp (parse_regex reg)) st
        (a ∷ args)
      >> pure 0
  grep_main fuel buff found st args = exits einval
