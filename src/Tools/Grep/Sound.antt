-- ===== src/Tools/Grep/Sound.antt =====
-- What a match of `grep` says of the line.
use yaup.Base.{
  ℕ, ◌≡◌, ◌≢◌, ◌⊎◌, inl, inr, refl, sym, ap, ◌∙◌, true, false, Bool, Bool-cases, List, [], ◌∷◌,
  ◌++◌, append_assoc, append-nil, ◌==◌, arith,
}
use yaup.Tools.Grep.{match_loop}

-- The pattern stands somewhere in the text.
abbrev pub Occurs : List ℕ → List ℕ → Type 0
Occurs pattern line = (before : List ℕ) × (after : List ℕ) × (line ≡ before ++ (pattern ++ after))

-- The text ends with a beginning of the pattern.
abbrev pub EndsIn : List ℕ → List ℕ → Type 0
EndsIn pattern line =
    (before : List ℕ) × (c : ℕ) × (start : List ℕ) × (rest : List ℕ) × (line
      ≡ before ++ (c ∷ start))
    × (pattern ≡ (c ∷ start) ++ rest)

-- A character of the rest of a line moves to what is seen of it.
snoc_append : (xs : List ℕ) (c : ℕ) (cs : List ℕ) → xs ++ (c ∷ cs) ≡ (xs ++ (c ∷ [])) ++ cs
snoc_append xs c cs = sym (append_assoc xs (c ∷ []) cs)

snoc_not_nil : (xs : List ℕ) (c : ℕ) → xs ++ (c ∷ []) ≢ []
snoc_not_nil [] c = ground arith
snoc_not_nil (x ∷ xs) c = ground arith

-- `seen` is the beginning of the pattern that stands in front of the rest of the line, and `before`
-- what is in front of that.
module _ (all pattern : List ℕ) where
  ends-EndsIn :
      (seen p before : List ℕ)
      → pattern ≡ seen ++ p
      → all ≡ before ++ (seen ++ [])
      → seen ≢ []
      → EndsIn pattern all
  ends-EndsIn [] p before e a ne = absurd (ne refl)
  ends-EndsIn (c ∷ seen) p before e a ne = (before, c, seen, p, ground (arith, append-nil seen), e)

  restart :
      (seen before : List ℕ) (c : ℕ) (cs : List ℕ)
      → all ≡ before ++ (seen ++ (c ∷ cs))
      → all ≡ (before ++ (seen ++ (c ∷ []))) ++ cs
  restart seen before c cs a =
      a
      ∙ ap (λ r. before ++ r) (snoc_append seen c cs)
      ∙ sym (append_assoc before (seen ++ (c ∷ [])) cs)

  match_loop_found :
      (seen p : List ℕ) (found : Bool) (before line : List ℕ)
      → pattern ≡ seen ++ p
      → all ≡ before ++ (seen ++ line)
      → (found ≡ true → seen ≢ [])
      → match_loop pattern p found line ≡ true
      → Occurs pattern all ⊎ EndsIn pattern all
  unfolding match_loop
  match_loop_found seen p found before [] e a ne m = inr (ends-EndsIn seen p before e a (ne m))
  match_loop_found seen [] found before (c ∷ cs) e a ne m =
      match_loop_found [] pattern false _ cs refl (restart seen before c cs a) (ground arith) m
  match_loop_found seen (d ∷ []) found before (c ∷ cs) e a ne m = elim (Bool-cases (c == d)) [
    | inl eq ↦ inl (before, cs, ground (arith, append_assoc seen (d ∷ []) cs))
    | inr eq ↦
        match_loop_found [] pattern false _ cs refl (restart seen before c cs a) (ground arith)
          (ground arith)
  ]
  match_loop_found seen (d ∷ d' ∷ p) found before (c ∷ cs) e a ne m = elim (Bool-cases (c == d)) [
    | inl eq ↦
        match_loop_found (seen ++ (d ∷ [])) (d' ∷ p) true before cs
          (e ∙ snoc_append seen d (d' ∷ p)) (ground (arith, snoc_append seen c cs))
          (λ h. snoc_not_nil seen d) (ground arith)
    | inr eq ↦
        match_loop_found [] pattern false _ cs refl (restart seen before c cs a) (ground arith)
          (ground arith)
  ]

match_loop_fresh :
    (pattern : List ℕ) (found : Bool) (c : ℕ) (cs : List ℕ)
    → match_loop pattern pattern found (c ∷ cs) ≡ match_loop pattern pattern false (c ∷ cs)
unfolding match_loop
match_loop_fresh [] found c cs = refl
match_loop_fresh (d ∷ []) found c cs = refl
match_loop_fresh (d ∷ d' ∷ p) found c cs = refl

-- A line that is not empty and that `grep` matches has the pattern in it, or ends with a beginning
-- of the pattern that is not empty.
pub match_loop_sound :
    (pattern : List ℕ) (found : Bool) (c : ℕ) (cs : List ℕ)
    → match_loop pattern pattern found (c ∷ cs) ≡ true
    → Occurs pattern (c ∷ cs) ⊎ EndsIn pattern (c ∷ cs)
match_loop_sound pattern found c cs m =
    match_loop_found (c ∷ cs) pattern [] pattern false [] (c ∷ cs) refl refl (ground arith)
      (sym (match_loop_fresh pattern found c cs) ∙ m)
