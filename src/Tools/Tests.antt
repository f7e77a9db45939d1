-- ===== src/Tools/Tests.antt =====
-- The theorems on the programs at small files.
use yaup.Base.{
  ℕ, ◌+◌, ◌≡◌, ◌≢◌, ◌⊎◌, refl, List, [], ◌∷◌, none, some, ok, take, get_elem?, count_if, ◌==◌,
  arith,
}
use yaup.Tools.Wc.{wc, isblank}
use yaup.Tools.Wc.Counts.{is_visible, wc-counts}
use yaup.Tools.Sum.{sum}
use yaup.Tools.Sum.Detects.{sum-one_byte}
use yaup.Tools.Cmp.{cmp}
use yaup.Tools.Cmp.First.{IsFirst, newlines, cmp_lem}
use yaup.Tools.Cksum.{crc32tab}
use yaup.Tools.Cksum.Polynomial.{divide, crc32tab-divide}

-- "hi there\n"
abbrev greeting : List ℕ
greeting = b'h' ∷ b'i' ∷ 32 ∷ b't' ∷ b'h' ∷ b'e' ∷ b'r' ∷ b'e' ∷ 10 ∷ []

-- "hi\nther\n"
abbrev letter : List ℕ
letter = b'h' ∷ b'i' ∷ 10 ∷ b't' ∷ b'h' ∷ b'e' ∷ b'r' ∷ 10 ∷ []

wc-greeting : wc greeting ≡ ok (7, 1, 1)
unfolding wc yaup.Tools.Wc.wc_loop yaup.Tools.Wc.isalnum yaup.Tools.Wc.ispunct isblank
wc-greeting = refl

wc-counts_example :
    wc greeting
    ≡ ok (count_if is_visible greeting, count_if isblank greeting, count_if (λ c. c == 10) greeting)
wc-counts_example = wc-counts greeting (omega arith)

sum-one_byte_example : sum (1 ∷ 2 ∷ 3 ∷ 4 ∷ []) ≢ sum (1 ∷ 2 ∷ 255 ∷ 4 ∷ [])
sum-one_byte_example =
    sum-one_byte (1 ∷ 2 ∷ []) (4 ∷ []) 3 255 (omega arith) (omega arith) (omega arith)

cmp_lem_example :
    ((letter ≡ greeting) × (cmp letter greeting ≡ ok none))
    ⊎ ((n : ℕ) × IsFirst letter greeting n
        × (cmp letter greeting ≡ ok (some (n + 1, newlines (take n letter)))))
cmp_lem_example = cmp_lem letter greeting (omega arith)

cmp-letter : cmp letter greeting ≡ ok (some (3, 0))
unfolding cmp yaup.Tools.Cmp.cmp_loop
cmp-letter = refl

crc32tab-divide_example : get_elem? crc32tab 200 ≡ some (divide 8 200)
crc32tab-divide_example = crc32tab-divide 200 (omega arith)

abbrev held : List ℕ
held = 9 ∷ 8 ∷ 7 ∷ 6 ∷ 5 ∷ 4 ∷ 3 ∷ 2 ∷ []
