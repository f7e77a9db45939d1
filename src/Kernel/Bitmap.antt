-- ===== src/Kernel/Bitmap.antt =====
-- kernel/fs/bitmap.c: the search for a free position in a bitmap, and the marking of positions.
pub mod Laws
use yaup.Base.{
  ℕ, zero, suc, ◌+◌, ◌-◌, ◌*◌, ◌/◌, ◌%◌, ◌^◌, Option, none, some, List, [], ◌∷◌, bit_or, get_elem?,
  set, ◌==◌, if◌then◌else◌, Run, ok, fault, out_of_fuel,
}
use yaup.Errno.{enospc, neg_off}

-- A `bitmap *`: null, at the 16-bit words from there on, or an address that is no bitmap.
pub data BitmapPtr : Type 0 where
  null wild : BitmapPtr
  at_words : List ℕ → BitmapPtr

-- `while (b) if (*b == 0) { b++; i += sizeof(*b); }`: only a null pointer leaves the loop, so the
-- search for the bit that follows is never reached.
unfoldable pub get_free_pos : ℕ → BitmapPtr → Run ℕ
get_free_pos zero b = out_of_fuel
get_free_pos (suc fuel) null = ok (neg_off enospc)
get_free_pos (suc fuel) wild = fault
get_free_pos (suc fuel) (at_words []) = fault
get_free_pos (suc fuel) (at_words (w ∷ ws)) =
    get_free_pos fuel (if w == 0 then at_words ws else at_words (w ∷ ws))

-- `pos / sizeof(*b)*8` and `pos % sizeof(*b)*8`, read from left to right.
unfoldable pub word_of : ℕ → ℕ
word_of pos = pos / 2 * 8

unfoldable pub bit_of : ℕ → ℕ
bit_of pos = pos % 2 * 8

-- `*(b+i) |= mask`
unfoldable pub or_word : List ℕ → ℕ → ℕ → Run (List ℕ)
or_word b i mask = elim (get_elem? b i) [
  | none ↦ fault
  | some w ↦ ok (set b i (bit_or w mask % 2 ^ 16))
]

unfoldable pub set_pos : List ℕ → ℕ → Run (List ℕ)
set_pos b pos = or_word b (word_of pos) (2 ^ bit_of pos)

-- `~(1 << j)` as an `int`, of which the assignment keeps 16 bits.
unfoldable pub unset_pos : List ℕ → ℕ → Run (List ℕ)
unset_pos b pos = or_word b (word_of pos) (2 ^ 32 - 1 - 2 ^ bit_of pos)
