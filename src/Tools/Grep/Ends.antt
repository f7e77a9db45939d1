-- ===== src/Tools/Grep/Ends.antt =====
-- Which files `grep` comes to the end of.
use yaup.Base.{
  ℕ, zero, suc, ◌<◌, ◌≤◌, ◌≡◌, ◌≢◌, ◌⊎◌, inl, inr, refl, ap, sym, ◌∙◌, Bool, Bool-cases, true,
  false, List, [], ◌∷◌, ◌++◌, length, get_or, if◌then◌else◌, ◌==◌, arith,
}
use yaup.Shell.Text.{string_of}
use yaup.Tools.Os.{Os}
use yaup.Tools.Program.{
  Outcome, Prog, Process, ◌>>◌, done, exited, faulted, running, pure, put, faults,
}
use yaup.Tools.Program.Scan.{skip_space}
use yaup.Tools.Grep.{match_loop, scan_line, after_line, take_scan, grep_loop, grep}

skip_space-short : (fp : List ℕ) → length (skip_space fp) ≤ length fp
unfolding skip_space
skip_space-short [] = omega arith
skip_space-short (c ∷ fp) = ground (arith, skip_space-short fp)

-- White space that is skipped leaves no newline in front.
skip_space-first : (fp : List ℕ) → get_or (skip_space fp) 0 0 ≢ 10
unfolding skip_space
skip_space-first [] = ground arith
skip_space-first (c ∷ fp) = ground (arith, skip_space-first fp)

after_line-first : (fp : List ℕ) → get_or (after_line fp) 0 0 ≢ 10
unfolding after_line
after_line-first [] = ground arith
after_line-first (c ∷ fp) = elim (Bool-cases (c == 10)) [
  | inl newline ↦ ground (arith, skip_space-first (c ∷ fp))
  | inr other ↦ ground (arith, after_line-first fp)
]

after_line-short : (fp : List ℕ) → length (after_line fp) ≤ length fp
unfolding after_line
after_line-short [] = omega arith
after_line-short (c ∷ fp) = elim (Bool-cases (c == 10)) [
  | inl newline ↦ ground (arith, skip_space-short (c ∷ fp))
  | inr other ↦ ground (arith, after_line-short fp)
]

-- A function that comes to an end: it returns, or its behaviour is undefined.
abbrev pub IsOver : {S A : Type 0} → Outcome S A → Type 0
IsOver {S = S} {A = A} r = ((a : A) × (t : S) × (r ≡ done a t)) ⊎ (r ≡ faulted)

-- What a scan leaves of a file that does not start with a newline.
abbrev left_of : List ℕ → List ℕ
left_of fp = take_scan (scan_line fp) (after_line fp) fp

left_of-first : (fp : List ℕ) → get_or fp 0 0 ≢ 10 → get_or (left_of fp) 0 0 ≢ 10
unfolding scan_line
left_of-first [] first = first
left_of-first (c ∷ fp) first = ground (arith, after_line-first (c ∷ fp))

left_of-short :
    (fp : List ℕ) (fuel c : ℕ) (cs : List ℕ)
    → get_or fp 0 0 ≢ 10
    → length fp < suc fuel
    → left_of fp ≡ c ∷ cs
    → length (left_of fp) < fuel
unfolding scan_line after_line
left_of-short [] fuel c cs first lt e = ground arith
left_of-short (d ∷ fp) fuel c cs first lt e = ground (arith, after_line-short fp)

abbrev pub is_running : {S A : Type 0} → Outcome S A → Bool
is_running (done a t) = false
is_running (exited n t) = false
is_running faulted = false
is_running running = true

abbrev pub newline_first : List ℕ → Bool
newline_first [] = false
newline_first (c ∷ fp) = c == 10

IsOver-is_running : {S A : Type 0} (r : Outcome S A) → IsOver r → is_running r ≡ false
IsOver-is_running (done a t) p = refl
IsOver-is_running (exited n t) p = refl
IsOver-is_running faulted p = refl
IsOver-is_running running (inl (a, t, e)) = ground arith
IsOver-is_running running (inr e) = ground arith

module _ (o : Os) where
  round-IsOver :
      (long shown : Bool) (out left : List ℕ) (rest : Prog (Process o) (Unit {0})) (s : Process o)
      → ((c : ℕ) (cs : List ℕ) → left ≡ c ∷ cs → (t : Process o) → IsOver (rest t))
      → IsOver (
          (if long
              then faults
              else (if shown then put out else pure tt)
                >> elim left [ [] ↦ pure tt | c ∷ cs ↦ rest ])
            s)
  round-IsOver true shown out left rest s more = inr refl
  round-IsOver false true out [] rest s more = inl (tt, record s { stdout = s.stdout ++ out }, refl)
  round-IsOver false false out [] rest s more = inl (tt, s, refl)
  round-IsOver false true out (c ∷ cs) rest s more =
      more c cs refl (record s { stdout = s.stdout ++ out })
  round-IsOver false false out (c ∷ cs) rest s more = more c cs refl s

  grep_loop-IsOver :
      (fuel : ℕ) (pattern buff : List ℕ) (found : Bool) (fp : List ℕ) (s : Process o)
      → get_or fp 0 0 ≢ 10
      → length fp < fuel
      → IsOver (grep_loop fuel pattern buff found fp s)
  unfolding grep_loop
  grep_loop-IsOver zero pattern buff found fp s first lt = absurd (omega arith)
  grep_loop-IsOver (suc fuel) pattern buff found fp s first lt =
      round-IsOver _ _ _ (left_of fp) _ s (λ c cs e t.
        grep_loop-IsOver fuel pattern _ _ (left_of fp) t (left_of-first fp first)
          (left_of-short fp fuel c cs first lt e))

  grep_loop_running :
      (fuel : ℕ) (pattern buff : List ℕ) (found : Bool) (fp : List ℕ) (s : Process o)
      → grep_loop fuel pattern buff found (10 ∷ fp) s ≡ running
  unfolding grep_loop scan_line
  grep_loop_running zero pattern buff found fp s = refl
  grep_loop_running (suc fuel) pattern buff found fp s =
      let found' = match_loop pattern pattern found (string_of buff) in
      let shown = record s { stdout = s.stdout ++ (string_of buff ++ (10 ∷ [])) } in
      elim (Bool-cases found') [
        | inl matched ↦ ground (arith, grep_loop_running fuel pattern buff true fp shown)
        | inr other ↦ ground (arith, grep_loop_running fuel pattern buff false fp s)
      ]

  -- However many rounds more than the file has bytes `grep` is given, it is still running behind them
  -- exactly when the file starts with a newline; it comes to an end for every other file.
  pub grep-running :
      (fuel : ℕ) (buff : List ℕ) (found : Bool) (fp pattern : List ℕ) (s : Process o)
      → length fp < fuel
      → is_running (grep fuel buff found fp pattern s) ≡ newline_first fp
  unfolding grep
  grep-running fuel buff found [] pattern s lt =
      IsOver-is_running _ (grep_loop-IsOver fuel pattern buff found [] s (ground arith) lt)
  grep-running fuel buff found (c ∷ fp) pattern s lt = elim (Bool-cases (c == 10)) [
    | inl newline ↦
        let first : c ≡ 10 = ground arith in
        ap (λ d. is_running (grep_loop fuel pattern buff found (d ∷ fp) s)) first
        ∙ ap is_running (grep_loop_running fuel pattern buff found fp s)
        ∙ sym newline
    | inr other ↦
        IsOver-is_running _ (grep_loop-IsOver fuel pattern buff found (c ∷ fp) s (ground arith) lt)
        ∙ sym other
  ]
