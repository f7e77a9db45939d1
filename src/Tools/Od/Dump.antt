-- ===== src/Tools/Od/Dump.antt =====
-- Where `od` prints a byte, and that the byte can be read back.
use yaup.Base.{
  ℕ, zero, suc, ◌+◌, ◌-◌, ◌*◌, ◌/◌, ◌%◌, ◌^◌, ◌<◌, ◌≤◌, ◌≡◌, ◌∙◌, ap, refl, Bool-cases, inl, inr,
  some, List, [], ◌∷◌, ◌++◌, length, length-append, take-append_length, take, drop, get_elem?,
  replicate, ◌==◌, ltb, arith,
}
use yaup.Tools.Od.{octal_digits, octal, od_loop, od}

-- The number that octal digits stand for.
unfoldable pub octal_value : ℕ → List ℕ → ℕ
octal_value n [] = n
octal_value n (c ∷ cs) = octal_value (n * 8 + (c - 48)) cs

-- The six digits of a byte.
octal-byte :
    (c : ℕ)
    → c < 256
    → octal 6 c ≡ 48 ∷ 48 ∷ 48 ∷ (48 + c / 64) ∷ (48 + c / 8 % 8) ∷ (48 + c % 8) ∷ []
unfolding octal octal_digits
octal-byte c lt = elim (Bool-cases (ltb c 8)) [
  | inl e ↦ ground arith
  | inr e ↦ elim (Bool-cases (ltb c 64)) [ inl e' ↦ ground arith | inr e' ↦ ground arith ]
]

-- A number of at most `k + 1` octal digits.
abbrev Fits : ℕ → ℕ → Type 0
Fits zero n = n < 8
Fits (suc k) n = Fits k (n / 8)

length-octal_digits :
    (k fuel n : ℕ) (tail : List ℕ)
    → k < fuel
    → Fits k n
    → length (octal_digits fuel n tail) ≤ suc k + length tail
unfolding octal_digits
length-octal_digits k zero n tail lt fits = absurd (omega arith)
length-octal_digits zero (suc fuel) n tail lt fits = ground arith
length-octal_digits (suc k) (suc fuel) n tail lt fits =
    ground (arith, length-octal_digits k fuel (n / 8) ((48 + n % 8) ∷ tail) (omega arith) fits)

length-replicate : (n x : ℕ) → length (replicate n x) ≡ n
length-replicate zero x = refl
length-replicate (suc n) x = ap suc (length-replicate n x)

length-octal : (n : ℕ) → n < 2 ^ 21 → length (octal 7 n) ≡ 7
unfolding octal
length-octal n lt =
    let ds = octal_digits 11 n [] in
    let short : length ds ≤ 7 = length-octal_digits 6 11 n [] (omega arith) (omega arith) in
    omega
      (arith, length-append (replicate (7 - length ds) 48) ds, length-replicate (7 - length ds) 48)

drop_past : (xs ys : List ℕ) (n m : ℕ) → m ≡ length xs + n → drop m (xs ++ ys) ≡ drop n ys
drop_past [] ys n m e = ap (λ i. drop i ys) (omega arith)
drop_past (x ∷ xs) ys n m e =
    ap (λ i. drop i (x ∷ (xs ++ ys))) {y = suc (length xs + n)} (omega arith)
    ∙ drop_past xs ys n (length xs + n) refl

-- Six digits and a space.
cell :
    (d : ℕ) (rest : List ℕ) (m : ℕ)
    → d < 256
    → drop (7 + m) (octal 6 d ++ (32 ∷ rest)) ≡ drop m rest
cell d rest m lt =
    let six : length (octal 6 d) ≡ 6 = ground (arith, octal-byte d lt) in
    drop_past (octal 6 d) (32 ∷ rest) (suc m) (7 + m) (omega arith)

-- The start of a row: a newline, the seven digits of the offset and a space.
margin :
    (offset : ℕ) (rest : List ℕ) (m : ℕ)
    → offset < 2 ^ 21
    → drop (9 + m) (10 ∷ (octal 7 offset ++ (32 ∷ rest))) ≡ drop m rest
margin offset rest m lt =
    let seven = length-octal offset lt in
    ap (λ i. drop i (10 ∷ (octal 7 offset ++ (32 ∷ rest)))) {y = suc (8 + m)} (omega arith)
    ∙ drop_past (octal 7 offset) (32 ∷ rest) (suc m) (8 + m) (omega arith)

abbrev pub AreBytes : List ℕ → Type 0
AreBytes [] = Unit {0}
AreBytes (c ∷ fp) = (c < 256) × AreBytes fp

get_elem?-byte : (fp : List ℕ) (k c : ℕ) → AreBytes fp → get_elem? fp k ≡ some c → c < 256
get_elem?-byte [] k c bytes e = ground arith
get_elem?-byte (d ∷ fp) zero c (lt, bytes) e = ground arith
get_elem?-byte (d ∷ fp) (suc k) c (lt, bytes) e = get_elem?-byte fp k c bytes e

-- Where the digits of byte `k` are, from the first byte of a row of which `cnt` are printed on.
abbrev place : ℕ → ℕ → ℕ
place cnt k = 7 * k + 9 * ((cnt + k) / 8)

od_loop-octal :
    (fp : List ℕ) (cnt offset k c : ℕ)
    → cnt < 8
    → offset + 2 * (cnt + length fp) < 2 ^ 21
    → get_elem? fp k ≡ some c
    → AreBytes fp
    → take 6 (drop (place cnt k) (od_loop fp cnt offset)) ≡ octal 6 c
unfolding od_loop
od_loop-octal [] cnt offset k c small room e bytes = ground arith
od_loop-octal (d ∷ fp) cnt offset zero c small room e (lt, later) =
    let six : 6 ≡ length (octal 6 d) = ground (arith, octal-byte d lt) in
    ap (λ m. take 6 (drop m (od_loop (d ∷ fp) cnt offset))) {y = 0} (omega arith)
    ∙ ap (λ m. take m (od_loop (d ∷ fp) cnt offset)) six
    ∙ take-append_length (octal 6 d) _
    ∙ ground arith
od_loop-octal (d ∷ fp) cnt offset (suc k) c small room e (lt, later) =
    elim (Bool-cases (cnt + 1 == 8)) [
      | inl full ↦
          let offset' = (offset + 16) % 2 ^ 32 in
          let new_row = od_loop fp 0 offset' in
          let below : offset' < 2 ^ 21 = ground arith in
          let rest = od_loop-octal fp 0 offset' k c (omega arith) (ground arith) e later in
          ground (
            arith,
            cell d (10 ∷ (octal 7 offset' ++ (32 ∷ new_row))) (9 + place 0 k) lt,
            margin offset' new_row (place 0 k) below,
            rest,
          )
      | inr inside ↦
          let rest = od_loop-octal fp (cnt + 1) offset k c (ground arith) (ground arith) e later in
          ground (arith, cell d (od_loop fp (cnt + 1) offset) (place (cnt + 1) k) lt, rest)
    ]

octal_value-octal : (c : ℕ) → c < 256 → octal_value 0 (octal 6 c) ≡ c
unfolding octal_value
octal_value-octal c lt = rw (octal-byte c lt) (omega arith)

-- Of a file of fewer than 2 ^ 20 bytes, each byte can be read back from what `od` prints: the six
-- octal digits of byte `k` start at place `7 + 7 * k + 9 * (k / 8)`.
pub octal_value-od :
    (fp : List ℕ) (k c : ℕ)
    → length fp < 2 ^ 20
    → AreBytes fp
    → get_elem? fp k ≡ some c
    → octal_value 0 (take 6 (drop (7 + (7 * k + 9 * (k / 8))) (od fp))) ≡ c
unfolding od
octal_value-od fp k c short bytes e =
    let at_place : drop (7 + (7 * k + 9 * (k / 8))) (od fp) ≡ drop (place 0 k) (od_loop fp 0 0) =
      drop_past (octal 7 0) (od_loop fp 0 0) (place 0 k) (7 + (7 * k + 9 * (k / 8)))
        (omega (arith, length-octal 0 (omega arith))) in
    let digits = od_loop-octal fp 0 0 k c (omega arith) (omega arith) e bytes in
    ground (arith, at_place, digits, octal_value-octal c (get_elem?-byte fp k c bytes e))
