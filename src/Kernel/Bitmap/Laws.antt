-- ===== src/Kernel/Bitmap/Laws.antt =====
-- What the bitmap functions do to a bitmap.
use yaup.Base.{
  ℕ, zero, suc, ◌*◌, ◌/◌, ◌%◌, ◌^◌, ◌<◌, ◌≤◌, ◌≡◌, ◌≢◌, List, [], ◌∷◌, arith, bit_or, get_elem?,
  set, get_elem?-set_ne, length-set, length, get_elem?_past, get_or-set, get_or, get_elem?-get_or,
  ok, fault,
}
use yaup.Kernel.Bitmap.{at_words, get_free_pos, set_pos, or_word, word_of, bit_of}

-- However long it runs, `get_free_pos` gives no position for a bitmap that is not null.
pub get_free_pos-ne-ok :
    (fuel : ℕ) (words : List ℕ) (pos : ℕ) → get_free_pos fuel (at_words words) ≢ ok pos
unfolding get_free_pos
get_free_pos-ne-ok zero words pos e = ground arith
get_free_pos-ne-ok (suc fuel) [] pos e = ground arith
get_free_pos-ne-ok (suc fuel) (w ∷ ws) pos e =
    ground (arith, get_free_pos-ne-ok fuel ws pos, get_free_pos-ne-ok fuel (w ∷ ws) pos)

-- `set_pos` changes one word, `pos / 2 * 8`, in which it sets bit `pos % 2 * 8`; past the end of the
-- bitmap it is a fault.
pub set_pos_lem :
    (b : List ℕ) (pos : ℕ)
    → (length b ≤ pos / 2 * 8 → set_pos b pos ≡ fault)
      × (pos / 2 * 8 < length b
          → (out : List ℕ) × (set_pos b pos ≡ ok out)
            × (length out ≡ length b)
            × (get_or out (pos / 2 * 8) 0
                ≡ bit_or (get_or b (pos / 2 * 8) 0) (2 ^ (pos % 2 * 8)) % 2 ^ 16)
            × ((j : ℕ) → pos / 2 * 8 ≢ j → get_elem? out j ≡ get_elem? b j))
unfolding set_pos or_word word_of bit_of
set_pos_lem b pos =
    let i = pos / 2 * 8 in
    let mask = 2 ^ (pos % 2 * 8) in
    let w = bit_or (get_or b i 0) mask % 2 ^ 16 in
    (
      λ past. ground (arith, get_elem?_past b i past),
      λ inside.
          let g = get_elem?-get_or b i 0 inside in
          (
            set b i w,
            ground (arith, g),
            length-set b i w,
            get_or-set b i w 0 g,
            λ j n. get_elem?-set_ne b i j w n,
          ),
    )
