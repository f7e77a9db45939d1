-- ===== src/Tools/Cksum/Polynomial.antt =====
-- The table against the polynomial.
use yaup.Base.{
  ℕ, zero, suc, ◌+◌, ◌/◌, ◌%◌, ◌<◌, ◌≡◌, refl, ap, ◌∙◌, some, List, [], ◌∷◌, if◌then◌else◌, ◌==◌,
  bit_xor, get_elem?, arith,
}
use yaup.Tools.Cksum.{crc32tab}

-- x^32 + x^26 + x^23 + x^22 + x^16 + x^12 + x^11 + x^10 + x^8 + x^7 + x^5 + x^4 + x^2 + x + 1, the
-- lowest power in the highest bit.
abbrev pub polynomial : ℕ
polynomial = 3988292384

-- Division by the polynomial, a bit at a time.
abbrev pub divide : ℕ → ℕ → ℕ
divide zero crc = crc
divide (suc n) crc = divide n (if crc % 2 == 1 then bit_xor (crc / 2) polynomial else crc / 2)

abbrev pub tabulate : (ℕ → ℕ) → ℕ → ℕ → List ℕ
tabulate f k zero = []
tabulate f k (suc n) = f k ∷ tabulate f (k + 1) n

get_elem?-tabulate :
    (f : ℕ → ℕ) (k n i : ℕ) → i < n → get_elem? (tabulate f k n) i ≡ some (f (k + i))
get_elem?-tabulate f k zero i lt = ground arith
get_elem?-tabulate f k (suc n) zero lt = ap (λ m. some (f m)) (omega arith)
get_elem?-tabulate f k (suc n) (suc i) lt =
    get_elem?-tabulate f (k + 1) n i (omega arith) ∙ ap (λ m. some (f m)) (omega arith)

tabulated : crc32tab ≡ tabulate (divide 8) 0 256
unfolding crc32tab
tabulated = refl

-- Entry `i` of the 256 of the table is `i` after eight steps of division by the polynomial.
pub crc32tab-divide : (i : ℕ) → i < 256 → get_elem? crc32tab i ≡ some (divide 8 i)
crc32tab-divide i lt =
    ap (λ t. get_elem? t i) tabulated
    ∙ get_elem?-tabulate (divide 8) 0 256 i lt
    ∙ ap (λ m. some (divide 8 m)) (omega arith)
