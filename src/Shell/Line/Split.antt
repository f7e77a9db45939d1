-- ===== src/Shell/Line/Split.antt =====
-- `split_line` against the words of a line.
use yaup.Base.{
  ℕ, suc, ◌+◌, ◌≤◌, ◌≡◌, refl, sym, ap₂, inl, inr, Bool, true, false, List, [], ◌∷◌, ◌++◌,
  if◌then◌else◌, ==_ne, some, Bool-cases, length, drop, ok, arith,
}
use yaup.Shell.Text.{is_delim, skip_delims, token_of, after_token, string_of}
use yaup.Shell.Text.Laws.{IsText, IsString}
use yaup.Shell.Line.{split_loop, put_token, terminated, grow_tokens, has_slot}

abbrev pub prepend : ℕ → List (List ℕ) → List (List ℕ)
prepend c [] = (c ∷ []) ∷ []
prepend c (w ∷ ws) = (c ∷ w) ∷ ws

-- A character begins a word of its own before a delimiter and at the end.
unfoldable pub attach : ℕ → List ℕ → List (List ℕ) → List (List ℕ)
attach c [] ws = (c ∷ []) ∷ ws
attach c (d ∷ ds) ws = if is_delim d then (c ∷ []) ∷ ws else prepend c ws

-- The longest runs of characters that are no delimiters, read from the right.
unfoldable pub words : List ℕ → List (List ℕ)
words [] = []
words (c ∷ cs) = let rest = words cs in if is_delim c then rest else attach c cs rest

pub words-skip_delims : (l : List ℕ) → words (skip_delims l) ≡ words l
unfolding words skip_delims
words-skip_delims [] = refl
words-skip_delims (c ∷ cs) = ground (arith, words-skip_delims cs)

-- The first word and the others.
pub words-token_of :
    (c : ℕ) (cs : List ℕ)
    → is_delim c ≡ false
    → words (c ∷ cs) ≡ token_of (c ∷ cs) ∷ words (drop 1 (after_token (c ∷ cs)))
unfolding words token_of after_token attach
words-token_of c [] p = ground arith
words-token_of c (d ∷ ds) p = elim (Bool-cases (is_delim d)) [
  | inl q ↦ ground arith
  | inr q ↦ ground (arith, words-token_of d ds q)
]

pub skip_delims_head :
    (l : List ℕ) (c : ℕ) (cs : List ℕ) → skip_delims l ≡ c ∷ cs → is_delim c ≡ false
unfolding skip_delims
skip_delims_head [] c cs e = ground arith
skip_delims_head (d ∷ ds) c cs e = elim (Bool-cases (is_delim d)) [
  | inl q ↦ skip_delims_head ds c cs (ground arith)
  | inr q ↦ ground arith
]

pub length-skip_delims : (l : List ℕ) → length (skip_delims l) ≤ length l
unfolding skip_delims
length-skip_delims [] = omega arith
length-skip_delims (c ∷ cs) = ground (arith, length-skip_delims cs)

pub length-after_token : (l : List ℕ) → length (after_token l) ≤ length l
unfolding after_token
length-after_token [] = omega arith
length-after_token (c ∷ cs) = ground (arith, length-after_token cs)

pub length-drop_one : (l : List ℕ) → length (drop 1 l) ≤ length l
length-drop_one [] = omega arith
length-drop_one (c ∷ cs) = omega arith

pub skip_delims-IsText : (l : List ℕ) → IsText l → IsText (skip_delims l)
unfolding skip_delims
skip_delims-IsText [] t = t
skip_delims-IsText (c ∷ cs) (n, t) = elim (Bool-cases (is_delim c)) [
  | inl q ↦ rw q (skip_delims-IsText cs t)
  | inr q ↦ rw q (n, t)
]

pub after_token-IsText : (l : List ℕ) → IsText l → IsText (drop 1 (after_token l))
unfolding after_token
after_token-IsText [] t = t
after_token-IsText (c ∷ cs) (n, t) = elim (Bool-cases (is_delim c)) [
  | inl q ↦ rw q t
  | inr q ↦ rw q (after_token-IsText cs t)
]

string_of-terminated :
    (grants : ℕ → Bool) (beyond rest behind : List ℕ)
    → string_of (terminated grants beyond rest behind) ≡ []
unfolding string_of terminated
string_of-terminated grants beyond [] behind = ground arith
string_of-terminated grants beyond (d ∷ ds) behind = ground arith

-- A token ends at the NUL that is written behind it.
pub string_of-token_of :
    (grants : ℕ → Bool) (beyond rest behind : List ℕ) (l : List ℕ)
    → IsText l
    → string_of (token_of l ++ terminated grants beyond rest behind) ≡ token_of l
unfolding string_of token_of
string_of-token_of grants beyond rest behind [] t = string_of-terminated grants beyond rest behind
string_of-token_of grants beyond rest behind (c ∷ cs) (n, t) = ground (
  arith,
  ==_ne c 0 n,
  string_of-token_of grants beyond rest behind cs t,
  string_of-terminated grants beyond rest behind,
)

terminated_head :
    (grants : ℕ → Bool) (beyond rest behind : List ℕ)
    → (more : List ℕ) × (terminated grants beyond rest behind ≡ 0 ∷ more)
unfolding terminated
terminated_head grants beyond [] behind = (beyond, refl)
terminated_head grants beyond (d ∷ rest) behind = (behind, refl)

pub token_of-IsString :
    (grants : ℕ → Bool) (beyond rest behind : List ℕ) (l : List ℕ)
    → IsText l
    → IsString (token_of l ++ terminated grants beyond rest behind)
token_of-IsString grants beyond rest behind l t =
    let (more, e) = terminated_head grants beyond rest behind in
    (more, ap₂ (λ a b. a ++ b) (sym (string_of-token_of grants beyond rest behind l t)) e)

-- One round: the first word is taken and the rest is what `rest` gives.
module _ (grants : ℕ → Bool) (beyond : List ℕ) (fuel i buffsize room : ℕ) (line : List ℕ)
    (fits : has_slot i room ≡ true) where
  pub split_loop-end :
      skip_delims line ≡ []
      → split_loop grants beyond (suc fuel) i buffsize room line
        ≡ ok (some ([], line ++ (0 ∷ beyond)))
  unfolding split_loop
  split_loop-end e = ground arith

  pub split_loop-next :
      (c : ℕ) (cs : List ℕ) (n m : ℕ)
      → skip_delims line ≡ c ∷ cs
      → grow_tokens grants beyond (i + 1) buffsize room ≡ some (n, m)
      → split_loop grants beyond (suc fuel) i buffsize room line
        ≡ put_token grants beyond line
            (c ∷ cs)
            (split_loop grants beyond fuel (i + 1) n m (drop 1 (after_token (c ∷ cs))))
  unfolding split_loop
  split_loop-next c cs n m e g = ground arith
