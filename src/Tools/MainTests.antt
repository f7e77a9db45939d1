-- ===== src/Tools/MainTests.antt =====
-- The theorems on the programs' files and arguments at a small system.
use yaup.Base.{
  ℕ, zero, suc, ◌+◌, ◌*◌, ◌^◌, ◌/◌, ◌<◌, ◌≤◌, ◌≡◌, ◌≢◌, ◌⊎◌, refl, true, false, some, none, List,
  [], ◌∷◌, length, take, drop, get_elem?, if◌then◌else◌, ok, fault, out_of_fuel, arith,
}
use yaup.Shell.Text.{text, same_text}
use yaup.Tools.Os.{FilePath}
use yaup.Tools.Program.{done, faulted}
use yaup.Tools.Program.Args.{IsFile, AreFiles, outputs, printing}
use yaup.Tools.Sample.{os, os-IsLawful, disk, process, stat_of, with_text}
use yaup.Tools.Cat.{cat_main}
use yaup.Tools.Cat.Concat.{cat_main-outputs}
use yaup.Tools.Cp.{cp_main}
use yaup.Tools.Cp.Copies.{cp_main-bytes, cp_main-same}
use yaup.Tools.Od.{od}
use yaup.Tools.Od.Dump.{octal_value, octal_value-od}
use yaup.Tools.Tr.{translate_char}
use yaup.Tools.Tr.Lookup.{lookup, translate_char-lookup}
use yaup.Tools.Head.{head}
use yaup.Tools.Head.Lines.{before_newline, head-before_newline}
use yaup.Tools.Grep.{match_loop}
use yaup.Tools.Grep.Sound.{Occurs, EndsIn, match_loop_sound}
use yaup.Tools.Chgrp.{get_delim}
use yaup.Tools.Chgrp.Group.{field_of, field_result, get_delim_lem}
use yaup.Tools.Chmod.{chmod_main}
use yaup.Tools.Chmod.Changes.{chmod_main-no_mode}
use yaup.Tools.Cksum.{cksum_main}
use yaup.Tools.Cksum.Main.{cksum_main-faulted}
use yaup.Tools.Login.{Search, get_user_line, shadow_search, match}
use yaup.Tools.Login.Match.{match-same_text}
use yaup.Tools.Login.Ends.{searches_end}

-- Two files, and a directory.
abbrev name_a : FilePath
name_a = 97 ∷ []

abbrev name_b : FilePath
name_b = 98 ∷ []

abbrev name_d : FilePath
name_d = 100 ∷ []

name_a-IsFile : IsFile os disk name_a
unfolding yaup.Tools.Program.s_isreg
name_a-IsFile = record { st = stat_of disk name_a; found = refl; regular = refl; opens = refl }

name_b-IsFile : IsFile os disk name_b
unfolding yaup.Tools.Program.s_isreg
name_b-IsFile = record { st = stat_of disk name_b; found = refl; regular = refl; opens = refl }

no_help : yaup.Tools.Program.Args.asks_help (name_a ∷ name_b ∷ []) ≡ false
unfolding yaup.Tools.Program.Args.asks_help
no_help = refl

plain_a : yaup.Tools.Program.Walk.option_r name_a ≡ some false
unfolding yaup.Tools.Program.Walk.option_r
plain_a = refl

no_option : yaup.Tools.Program.Args.is_option 114 name_b ≡ false
unfolding yaup.Tools.Program.Args.is_option
no_option = refl

apart_b_a : ¬ os.Aliases disk name_b name_a
unfolding same_text
apart_b_a e = ground arith

aliases_a : os.Aliases disk name_a name_a
unfolding same_text
aliases_a = refl

cat_main-outputs_example :
    cat_main os (stat_of disk name_d) (name_a ∷ name_b ∷ []) process
    ≡ done 0 (printing os process (outputs os (λ name fp. fp) disk (name_a ∷ name_b ∷ [])))
cat_main-outputs_example =
    cat_main-outputs os (stat_of disk name_d) name_a (name_b ∷ []) process no_help
      (name_a-IsFile, (name_b-IsFile, tt))

cp_main-bytes_example :
    (t : yaup.Tools.Program.Process os) × (cp_main os 1
        (stat_of disk name_d)
        (name_a ∷ name_b ∷ [])
        process
      ≡ done 0 t)
    × (os.bytes t.world name_b ≡ os.bytes disk name_a)
    × ((other : FilePath)
        → ¬ os.Aliases disk name_b other
        → os.bytes t.world other ≡ os.bytes disk other)
cp_main-bytes_example =
    cp_main-bytes os 1 (stat_of disk name_d) name_a name_b process
      (with_text disk name_b (λ cs. [])) os-IsLawful plain_a (refl, refl) apart_b_a

cp_main-same_example :
    (t : yaup.Tools.Program.Process os) × (cp_main os 1
        (stat_of disk name_d)
        (name_a ∷ name_a ∷ [])
        process
      ≡ done 0 t)
    × (os.bytes t.world name_a ≡ [])
cp_main-same_example =
    cp_main-same os 1 (stat_of disk name_d) name_a name_a process (with_text disk name_a (λ cs. []))
      os-IsLawful plain_a (refl, refl) aliases_a

abbrev letters : List ℕ
letters = b'h' ∷ b'i' ∷ 10 ∷ []

octal_value-od_example : octal_value 0 (take 6 (drop (7 + (7 * 2 + 9 * (2 / 8))) (od letters))) ≡ 10
octal_value-od_example =
    octal_value-od letters 2 10 (omega arith) (omega arith, (omega arith, (omega arith, tt))) refl

abbrev two_bytes : List ℕ
two_bytes = 0 ∷ 0 ∷ []

-- "a:b"
abbrev entry_line : List ℕ
entry_line = 97 ∷ 58 ∷ 98 ∷ []

translate_char-lookup_example :
    translate_char (97 ∷ 98 ∷ []) (120 ∷ 121 ∷ []) 98 ≡ lookup (97 ∷ 98 ∷ []) (120 ∷ 121 ∷ []) 98
translate_char-lookup_example =
    translate_char-lookup (97 ∷ 98 ∷ []) (120 ∷ 121 ∷ []) 98 (omega arith, (omega arith, tt))
      (omega arith, (omega arith, tt)) refl
      ((omega arith, (omega arith, tt)), ((omega arith, (omega arith, tt)), tt))

eighty : yaup.Shell.Text.atoi (text "80") ≡ 80
unfolding text yaup.Shell.Text.atoi yaup.Shell.Text.signed_value yaup.Shell.Text.digits_value
eighty = refl

head-before_newline_example :
    head (104 ∷ 105 ∷ 10 ∷ 120 ∷ []) 1 process
    ≡ done tt (printing os process (104 ∷ before_newline 1 (105 ∷ 10 ∷ 120 ∷ [])))
head-before_newline_example =
    head-before_newline os 104 (105 ∷ 10 ∷ 120 ∷ []) (text "80") 0 process refl
      (omega (arith, eighty)) (omega (arith, eighty))

found_a : match_loop (97 ∷ 98 ∷ []) (97 ∷ 98 ∷ []) false (120 ∷ 97 ∷ 98 ∷ []) ≡ true
unfolding match_loop
found_a = refl

match_loop_sound_example :
    Occurs (97 ∷ 98 ∷ []) (120 ∷ 97 ∷ 98 ∷ []) ⊎ EndsIn (97 ∷ 98 ∷ []) (120 ∷ 97 ∷ 98 ∷ [])
match_loop_sound_example = match_loop_sound (97 ∷ 98 ∷ []) false 120 (97 ∷ 98 ∷ []) found_a

-- `grep ab` does not find the line "aab".
match_loop-missed : match_loop (97 ∷ 98 ∷ []) (97 ∷ 98 ∷ []) false (97 ∷ 97 ∷ 98 ∷ []) ≡ false
unfolding match_loop
match_loop-missed = refl

get_delim_lem_example :
    ((length (field_of 58 entry_line) < length two_bytes)
      × (get_delim two_bytes 2 58 entry_line ≡ ok (field_result 58 0 two_bytes entry_line)))
    ⊎ ((length two_bytes ≤ length (field_of 58 entry_line))
        × (get_delim two_bytes 2 58 entry_line ≡ fault))
get_delim_lem_example = get_delim_lem two_bytes entry_line 58

chmod_main-no_mode_example :
    chmod_main os 1 (stat_of disk name_d) (name_b ∷ name_a ∷ []) process
    ≡ done 0 (record process { world = disk })
chmod_main-no_mode_example =
    chmod_main-no_mode os 1 (stat_of disk name_d) (stat_of disk name_a) name_b name_a process disk
      no_option refl (omega arith) refl

abbrev eight_bytes : List ℕ
eight_bytes = 0 ∷ 0 ∷ 0 ∷ 0 ∷ 0 ∷ 0 ∷ 0 ∷ 0 ∷ []

long_a : 8 ≤ length (os.bytes disk name_a)
unfolding text
long_a = omega arith

cksum_main-faulted_example :
    cksum_main os (λ a. eight_bytes) (name_a ∷ name_b ∷ []) process ≡ faulted
cksum_main-faulted_example =
    cksum_main-faulted os (λ a. eight_bytes) name_a (name_b ∷ []) process refl refl long_a

abbrev zeros : List ℕ
zeros = yaup.Base.replicate 128 0

-- "root:x\n"
abbrev shadow_file : List ℕ
shadow_file = b'r' ∷ b'o' ∷ b'o' ∷ b't' ∷ 58 ∷ b'x' ∷ 10 ∷ []

abbrev root : List ℕ
root = b'r' ∷ b'o' ∷ b'o' ∷ b't' ∷ []

root_matches : match zeros zeros shadow_file root root ≡ ok true
unfolding match shadow_search yaup.Tools.Login.shadow_loop yaup.Tools.Login.compare_field
    yaup.Tools.Login.copy_name yaup.Tools.Login.copy_field yaup.Shell.Text.strcmp_eq
    yaup.Tools.Program.Scan.line_of yaup.Tools.Program.Scan.meets_end
    yaup.Tools.Program.Scan.fill_line
root_matches = refl

match-same_text_example :
    (s : Search) × (shadow_search zeros zeros shadow_file root ≡ ok s)
    × (true ≡ (if s.found then same_text root root else true))
match-same_text_example =
    match-same_text zeros zeros shadow_file root root true
      (omega arith, (omega arith, (omega arith, (omega arith, tt))))
      (omega arith, (omega arith, (omega arith, (omega arith, tt)))) (omega arith) root_matches

searches_end_example :
    (get_user_line zeros zeros shadow_file root ≢ out_of_fuel)
    × (shadow_search zeros zeros shadow_file root ≢ out_of_fuel)
searches_end_example = searches_end zeros zeros shadow_file root
