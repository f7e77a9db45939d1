-- ===== src/Tools/Nl/Numbers.antt =====
-- The numbers that `nl` prints.
use yaup.Base.{
  ◌-◌, replicate, ℕ, zero, suc, ◌+◌, ◌^◌, ◌<◌, ◌≤◌, ◌≡◌, ◌≢◌, refl, ◌∙◌, false, some, List, [], ◌∷◌,
  ◌++◌, append_assoc, length-append, length, drop, arith,
}
use yaup.Shell.Text.{decimal}
use yaup.Tools.Os.{Os}
use yaup.Tools.Program.{Process, done}
use yaup.Tools.Program.Args.{printing}
use yaup.Tools.Program.Scan.{line_of, meets_end}
use yaup.Tools.Nl.{is_blank, c_string, get_line, decimal_5, nl_loop, nl}

-- No line counts as blank but the empty string, which is no line of a file.
is_blank-false : (c : ℕ) (line : List ℕ) → is_blank (c ∷ line) ≡ false
unfolding is_blank
is_blank-false c [] = refl
is_blank-false c (d ∷ line) = ground (arith, is_blank-false d line)

-- A line has no newline and no NUL in it.
abbrev pub IsLine : List ℕ → Type 0
IsLine [] = Unit {0}
IsLine (c ∷ line) = (c ≢ 10) × (c ≢ 0) × IsLine line

abbrev pub AreLines : List (List ℕ) → Type 0
AreLines [] = Unit {0}
AreLines (line ∷ lines) = IsLine line × AreLines lines

-- The file of the lines.
abbrev pub file_of : List (List ℕ) → List ℕ
file_of [] = []
file_of (line ∷ lines) = line ++ (10 ∷ file_of lines)

-- Five places at least, with spaces in front.
unfoldable pub right_aligned : ℕ → List ℕ
right_aligned n = replicate (5 - length (decimal n)) 32 ++ decimal n

decimal_5-right_aligned : (n : ℕ) → n < 2 ^ 31 → decimal_5 n ≡ right_aligned n
unfolding decimal_5 right_aligned yaup.Tools.Program.Print.decimal_int
decimal_5-right_aligned n small = ground arith

unfoldable pub numbered_line : ℕ → List ℕ → List ℕ
numbered_line n line = right_aligned n ++ (32 ∷ 32 ∷ line)

-- The lines with numbers from `n + 1` on, and then the last line with the next number. `last` is the
-- line in front of them.
unfoldable pub numbered : ℕ → List ℕ → List (List ℕ) → List ℕ
numbered n last [] = numbered_line (n + 1) last
numbered n last (line ∷ lines) =
    numbered_line (n + 1) (line ++ (10 ∷ [])) ++ numbered (n + 1) (line ++ (10 ∷ [])) lines

line_of-line :
    (n : ℕ) (line rest : List ℕ)
    → IsLine line
    → length line < n
    → line_of n (line ++ (10 ∷ rest)) ≡ line ++ (10 ∷ [])
unfolding line_of
line_of-line zero line rest p lt = absurd (omega arith)
line_of-line (suc n) [] rest p lt = refl
line_of-line (suc n) (c ∷ line) rest (ne, nz, p) lt =
    ground (arith, line_of-line n line rest p (omega arith))

meets_end-line :
    (n : ℕ) (line rest : List ℕ)
    → IsLine line
    → length line < n
    → meets_end n (line ++ (10 ∷ rest)) ≡ false
unfolding meets_end
meets_end-line zero line rest p lt = absurd (omega arith)
meets_end-line (suc n) [] rest p lt = refl
meets_end-line (suc n) (c ∷ line) rest (ne, nz, p) lt =
    ground (arith, meets_end-line n line rest p (omega arith))

c_string-line : (line : List ℕ) → IsLine line → c_string (line ++ (10 ∷ [])) ≡ line ++ (10 ∷ [])
unfolding c_string
c_string-line [] p = refl
c_string-line (c ∷ line) (ne, nz, p) = ground (arith, c_string-line line p)

drop-line : (line rest : List ℕ) → drop (length (line ++ (10 ∷ []))) (line ++ (10 ∷ rest)) ≡ rest
drop-line [] rest = refl
drop-line (c ∷ line) rest = drop-line line rest

length-file : (line rest : List ℕ) → length line < length (line ++ (10 ∷ rest))
length-file [] rest = omega arith
length-file (c ∷ line) rest = omega (arith, length-file line rest)

length-lines : (lines : List (List ℕ)) → length lines ≤ length (file_of lines)
length-lines [] = omega arith
length-lines (line ∷ lines) =
    omega (arith, length-lines lines, length-append line (10 ∷ file_of lines))

module _ (o : Os) where
  nl_loop-line :
      (fuel num : ℕ) (held line rest : List ℕ) (s : Process o)
      → IsLine line
      → num + 1 < 2 ^ 31
      → nl_loop (suc fuel) num held (line ++ (10 ∷ rest)) s
        ≡ nl_loop fuel
            (num + 1)
            (line ++ (10 ∷ []))
            rest
            (printing o s (numbered_line (num + 1) (line ++ (10 ∷ []))))
  unfolding nl_loop numbered_line get_line
  nl_loop-line fuel num held [] rest s p lt =
      let n = suc (suc (length rest)) in
      ground (
        arith,
        line_of-line n [] rest p (omega arith),
        meets_end-line n [] rest p (omega arith),
        is_blank-false 10 [],
        decimal_5-right_aligned (num + 1) lt,
        c_string-line [] p,
      )
  nl_loop-line fuel num held (c ∷ line) rest s p lt =
      let n = suc (length ((c ∷ line) ++ (10 ∷ rest))) in
      let short : length (c ∷ line) < n = omega (arith, length-file (c ∷ line) rest) in
      ground (
        arith,
        line_of-line n (c ∷ line) rest p short,
        meets_end-line n (c ∷ line) rest p short,
        drop-line (c ∷ line) rest,
        c_string-line (c ∷ line) p,
        is_blank-false c (line ++ (10 ∷ [])),
        decimal_5-right_aligned (num + 1) lt,
      )

  nl_loop-numbered :
      (fuel num : ℕ) (c : ℕ) (cs : List ℕ) (lines : List (List ℕ)) (s : Process o)
      → AreLines lines
      → length lines < fuel
      → num + length lines + 1 < 2 ^ 31
      → nl_loop fuel num (c ∷ cs) (file_of lines) s
        ≡ done tt (printing o s (numbered num (c ∷ cs) lines))
  unfolding nl_loop numbered numbered_line line_of meets_end get_line
  nl_loop-numbered zero num c cs lines s p lt small = absurd (omega arith)
  nl_loop-numbered (suc fuel) num c cs [] s p lt small =
      ground (arith, is_blank-false c cs, decimal_5-right_aligned (num + 1) (omega arith))
  nl_loop-numbered (suc fuel) num c cs ([] ∷ lines) s (q, p) lt small =
      let first = numbered_line (num + 1) (10 ∷ []) in
      let t = printing o s first in
      let rest = nl_loop-numbered fuel (num + 1) 10 [] lines t p (omega arith) (omega arith) in
      nl_loop-line fuel num (c ∷ cs) [] (file_of lines) s q (omega arith)
      ∙ rest
      ∙ ground (arith, append_assoc s.stdout first (numbered (num + 1) (10 ∷ []) lines))
  nl_loop-numbered (suc fuel) num c cs ((d ∷ line) ∷ lines) s (q, p) lt small =
      let first = numbered_line (num + 1) ((d ∷ line) ++ (10 ∷ [])) in
      let t = printing o s first in
      let rest =
        nl_loop-numbered fuel (num + 1) d (line ++ (10 ∷ [])) lines t p (omega arith)
          (omega arith) in
      nl_loop-line fuel num (c ∷ cs) (d ∷ line) (file_of lines) s q (omega arith)
      ∙ rest
      ∙ ground
          (arith, append_assoc s.stdout first (numbered (num + 1) (d ∷ (line ++ (10 ∷ []))) lines))

  -- The lines behind a line.
  then_numbered :
      (fuel : ℕ) (line : List ℕ) (lines : List (List ℕ)) (s : Process o)
      → AreLines lines
      → length lines < fuel
      → length lines + 2 < 2 ^ 31
      → nl_loop fuel 1 (line ++ (10 ∷ [])) (file_of lines) s
        ≡ done tt (printing o s (numbered 1 (line ++ (10 ∷ [])) lines))
  then_numbered fuel [] lines s p lt small =
      nl_loop-numbered fuel 1 10 [] lines s p lt (omega arith)
  then_numbered fuel (d ∷ line) lines s p lt small =
      nl_loop-numbered fuel 1 d (line ++ (10 ∷ [])) lines s p lt (omega arith)

  -- `nl` of a file whose lines all end in a newline and hold no NUL, and that has at least one and less
  -- than 2 ^ 31 - 1, with a memory that happens to work: each line with its number, empty lines too,
  -- and then the last line once more with the next number.
  pub nl-numbered :
      (fresh line : List ℕ) (lines : List (List ℕ)) (s : Process o)
      → AreLines (line ∷ lines)
      → length lines + 2 < 2 ^ 31
      → nl (some fresh) (file_of (line ∷ lines)) s
        ≡ done tt (printing o s (numbered 0 [] (line ∷ lines)))
  unfolding nl numbered
  nl-numbered fresh line lines s (q, p) small =
      let first = numbered_line 1 (line ++ (10 ∷ [])) in
      let t = printing o s first in
      let long = length-append line (10 ∷ file_of lines) in
      let more = length-lines lines in
      nl_loop-line (suc (length (line ++ (10 ∷ file_of lines)))) 0 fresh line (file_of lines) s q
        (omega arith)
      ∙ then_numbered (suc (length (line ++ (10 ∷ file_of lines)))) line lines t p (omega arith)
          (omega arith)
      ∙ ground (arith, append_assoc s.stdout first (numbered 1 (line ++ (10 ∷ [])) lines))
