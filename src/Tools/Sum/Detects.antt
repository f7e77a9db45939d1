-- ===== src/Tools/Sum/Detects.antt =====
-- What the checksum of `sum` detects.
use yaup.Base.{ℕ, ◌^◌, ◌<◌, ◌≡◌, ◌≢◌, refl, List, [], ◌∷◌, ◌++◌, arith}
use yaup.Tools.Sum.{sum_step, sum_loop, sum}

sum_step-lt : (n c : ℕ) → sum_step n c < 2 ^ 16
unfolding sum_step
sum_step-lt n c = omega arith

sum_step-injective : (n m c : ℕ) → n < 2 ^ 16 → m < 2 ^ 16 → sum_step n c ≡ sum_step m c → n ≡ m
unfolding sum_step
sum_step-injective n m c p q e = omega arith

sum_step-byte : (n c d : ℕ) → c < 256 → d < 256 → sum_step n c ≡ sum_step n d → c ≡ d
unfolding sum_step
sum_step-byte n c d p q e = omega arith

sum_loop-injective :
    (cs : List ℕ) (n m : ℕ) → n < 2 ^ 16 → m < 2 ^ 16 → sum_loop n cs ≡ sum_loop m cs → n ≡ m
unfolding sum_loop
sum_loop-injective [] n m p q e = e
sum_loop-injective (c ∷ cs) n m p q e =
    sum_step-injective n m c p q
      (sum_loop-injective cs (sum_step n c) (sum_step m c) (sum_step-lt n c) (sum_step-lt m c) e)

sum_loop-append :
    (before rest : List ℕ) (n : ℕ) → sum_loop n (before ++ rest) ≡ sum_loop (sum_loop n before) rest
unfolding sum_loop
sum_loop-append [] rest n = refl
sum_loop-append (c ∷ before) rest n = sum_loop-append before rest (sum_step n c)

-- Two files that differ in one byte only, whose values are below 256, have different checksums.
pub sum-one_byte :
    (before rest : List ℕ) (c d : ℕ)
    → c < 256
    → d < 256
    → c ≢ d
    → sum (before ++ (c ∷ rest)) ≢ sum (before ++ (d ∷ rest))
unfolding sum sum_loop
sum-one_byte before rest c d p q ne e =
    let n = sum_loop 0 before in
    let same : sum_loop (sum_step n c) rest ≡ sum_loop (sum_step n d) rest =
      ground (arith, sum_loop-append before (c ∷ rest) 0, sum_loop-append before (d ∷ rest) 0) in
    ne (
      sum_step-byte n c d p q (
        sum_loop-injective rest (sum_step n c) (sum_step n d) (sum_step-lt n c) (sum_step-lt n d)
          same))
