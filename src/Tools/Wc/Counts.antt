-- ===== src/Tools/Wc/Counts.antt =====
-- What `wc` counts.
use yaup.Base.{
  Run, ok, true, false, refl, ℕ, ◌+◌, ◌^◌, ◌<◌, ◌≤◌, ◌≡◌, ap, ◌∙◌, Bool, ◌&&◌, ◌||◌, List, [], ◌∷◌,
  ◌==◌, leb, length, count_if, arith, Bool-cases, inl, inr,
}
use yaup.Tools.Wc.{isalnum, ispunct, isblank, count_up, wc_loop, wc}

-- The visible characters of ASCII.
unfoldable pub is_visible : ℕ → Bool
is_visible c = leb 33 c && leb c 126

visible : (c : ℕ) → (isalnum c || ispunct c) ≡ is_visible c
unfolding isalnum ispunct is_visible
visible c = ground arith

-- A counter moves on by one for a character that passes.
abbrev tick : Bool → ℕ → ℕ
tick true n = n + 1
tick false n = n

count_up-tick :
    {A : Type 0} (b : Bool) (n : ℕ) (k : ℕ → Run A) → n + 1 < 2 ^ 31 → count_up b n k ≡ k (tick b n)
count_up-tick true n k small = ground arith
count_up-tick false n k small = refl

tick-count_if :
    (p : ℕ → Bool) (c : ℕ) (cs : List ℕ) (n : ℕ)
    → (tick (p c) n + count_if p cs ≡ n + count_if p (c ∷ cs)) × (tick (p c) n ≤ n + 1)
tick-count_if p c cs n = elim (Bool-cases (p c)) [
  | inl e ↦ (ground arith, ground arith)
  | inr e ↦ (ground arith, ground arith)
]

abbrev pub counts : List ℕ → ℕ → ℕ → ℕ → ℕ × ℕ × ℕ
counts cs b w l =
    (b + count_if is_visible cs, w + count_if isblank cs, l + count_if (λ c. c == 10) cs)

wc_loop-counts :
    (cs : List ℕ) (b w l : ℕ)
    → b + length cs < 2 ^ 31
    → w + length cs < 2 ^ 31
    → l + length cs < 2 ^ 31
    → wc_loop cs b w l ≡ ok (counts cs b w l)
unfolding wc_loop
wc_loop-counts [] b w l p q r = ground arith
wc_loop-counts (c ∷ cs) b w l p q r =
    let (eb, lb) = tick-count_if is_visible c cs b in
    let (ew, lw) = tick-count_if isblank c cs w in
    let (el, ll) = tick-count_if (λ x. x == 10) c cs l in
    let b' = tick (is_visible c) b in
    let w' = tick (isblank c) w in
    let l' = tick (c == 10) l in
    let line : ℕ → ℕ → Run (ℕ × ℕ × ℕ) = λ x y. count_up (c == 10) l (λ z. wc_loop cs x y z) in
    let word : ℕ → Run (ℕ × ℕ × ℕ) = λ x. count_up (isblank c) w (λ y. line x y) in
    ap (λ v. count_up v b word) (visible c)
    ∙ count_up-tick (is_visible c) b word (omega arith)
    ∙ count_up-tick (isblank c) w (λ y. line b' y) (omega arith)
    ∙ count_up-tick (c == 10) l (λ z. wc_loop cs b' w' z) (omega arith)
    ∙ wc_loop-counts cs b' w' l' (omega arith) (omega arith) (omega arith)
    ∙ ground (arith, eb, ew, el)

-- Of a file below 2 GiB `wc` counts the visible characters, the blanks and the newlines, in this order.
pub wc-counts :
    (fp : List ℕ)
    → length fp < 2 ^ 31
    → wc fp ≡ ok (count_if is_visible fp, count_if isblank fp, count_if (λ c. c == 10) fp)
unfolding wc
wc-counts fp small =
    wc_loop-counts fp 0 0 0 (omega arith) (omega arith) (omega arith) ∙ ground arith
