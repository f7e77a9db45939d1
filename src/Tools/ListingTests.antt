-- ===== src/Tools/ListingTests.antt =====
-- The theorems on listings, searches and numbered lines at a small system.
use yaup.Base.{ℕ, ◌+◌, ◌*◌, ◌≡◌, ◌≤◌, refl, true, false, some, [], ◌∷◌, ◌++◌, if◌then◌else◌, arith}
use yaup.Shell.Text.{text, same_text}
use yaup.Tools.Os.{Os, FilePath, Entry, gives}
use yaup.Tools.Program.{Process, done, faulted, s_isdir}
use yaup.Tools.Program.Walk.{is_dots}
use yaup.Tools.Program.Args.{printing}
use yaup.Tools.Sample.{os, disk, stat_of}
use yaup.Tools.Grep.{grep}
use yaup.Tools.Grep.Ends.{is_running, newline_first, grep-running}
use yaup.Tools.Ls.{ls_main}
use yaup.Tools.Ls.Faults.{AreNamed, ls_main-faulted}
use yaup.Tools.Nl.{nl}
use yaup.Tools.Nl.Numbers.{AreLines, file_of, numbered, nl-numbered}
use yaup.Tools.Find.{find_main}
use yaup.Tools.Find.Flat.{IsFlat, has_entry, find_main-flat}
use yaup.Tools.Du.{du_line, put_tenths}
use yaup.Tools.Du.Rounds.{IsUnit, du_line-near}

abbrev entry_a : Entry
entry_a = record { d_name = 97 ∷ []; is_dir = false; is_reg = true }

abbrev dot : Entry
dot = record { d_name = 46 ∷ []; is_dir = true; is_reg = false }

-- Every directory has a file "a".
abbrev listing : Os
listing = record os { entries = λ w path. gives (dot ∷ entry_a ∷ []) }

abbrev process : Process listing
process = record { world = disk; errno = 0; stdin = []; stdout = [] }

abbrev name_d : FilePath
name_d = 100 ∷ []

hi-AreLines : AreLines (text "hi" ∷ [] ∷ [])
unfolding text
hi-AreLines = ((omega arith, omega arith, (omega arith, omega arith, tt)), (tt, tt))

directory : s_isdir ((stat_of disk name_d).st_mode) ≡ true
unfolding s_isdir
directory = refl

named : AreNamed (dot ∷ entry_a ∷ [])
named = (ground arith, (ground arith, tt))

flat : IsFlat (dot ∷ entry_a ∷ [])
unfolding is_dots same_text text
flat = (refl, (refl, tt))

nl-numbered_example :
    nl (some []) (file_of (text "hi" ∷ [] ∷ [])) process
    ≡ done tt (printing listing process (numbered 0 [] (text "hi" ∷ [] ∷ [])))
unfolding text
nl-numbered_example = nl-numbered listing [] (text "hi") ([] ∷ []) process hi-AreLines (omega arith)

ls_main-faulted_example : ls_main listing (stat_of disk name_d) (name_d ∷ []) process ≡ faulted
ls_main-faulted_example =
    ls_main-faulted listing (stat_of disk name_d) (stat_of disk name_d) name_d []
      (dot ∷ entry_a ∷ []) process refl directory refl named

find_main-flat_example :
    find_main listing 1 [] (stat_of disk name_d) ((97 ∷ []) ∷ name_d ∷ []) process ≡ (
      if has_entry (dot ∷ entry_a ∷ []) (97 ∷ [])
      then done 0 (printing listing process (97 ∷ []))
      else done 0 (printing listing process ((97 ∷ []) ++ text " not found\n")))
find_main-flat_example =
    find_main-flat listing 0 [] (stat_of disk name_d) (stat_of disk name_d) (97 ∷ []) name_d
      (dot ∷ entry_a ∷ []) process refl directory refl flat (omega arith)

du_line-near_example :
    (t : ℕ) × (w : ℕ) × (u : ℕ) × (du_line 3000 name_d
      ≡ (put_tenths t ++ (u ∷ [])) ++ (text " \t " ++ (name_d ++ (10 ∷ []))))
    × IsUnit w u
    × (2 * (3000 * 10) ≤ 2 * (t * w) + w)
    × (2 * (t * w) ≤ 2 * (3000 * 10) + w)
du_line-near_example = du_line-near 3000 name_d (omega arith)

grep-running_example :
    is_running (grep {o = listing} 5 (0 ∷ []) false (text "hi\n") (text "i") process)
    ≡ newline_first (text "hi\n")
unfolding text
grep-running_example =
    grep-running listing 5 (0 ∷ []) false (text "hi\n") (text "i") process (omega arith)
