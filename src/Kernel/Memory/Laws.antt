-- ===== src/Kernel/Memory/Laws.antt =====
-- What `memset` of kernel/mem/string.c cannot do.
use yaup.Base.{ℕ, zero, suc, ◌+◌, ◌-◌, ◌*◌, ◌%◌, ◌^◌, ◌<◌, ◌≡◌, ◌≢◌, List, length, arith, ok, fault}
use yaup.Base.{◌≤◌, ◌++◌, take, drop, take-append_length, drop-take_append, length-take_append_drop}
use yaup.Kernel.Memory.{memset, put_int, copy_from, copy_to}

-- However long it runs, `memset` does not return.
pub memset-ne-ok :
    (fuel : ℕ) (obj : List ℕ) (start c sz : ℕ) (out : List ℕ) → memset fuel obj start c sz ≢ ok out
unfolding memset
memset-ne-ok zero obj start c sz out e = ground arith
memset-ne-ok (suc fuel) obj start c sz out e =
    let sz' = (sz + 2 ^ 64 - 1) % 2 ^ 64 in
    let i = (start + 4 * sz') % 2 ^ 64 in
    ground (arith, memset-ne-ok fuel (put_int obj i c) start c sz' out)

pub memset-fault :
    (fuel : ℕ) (obj : List ℕ) (start c sz : ℕ)
    → 0 < sz
    → length obj < start + 4 * sz
    → start + 4 * sz < 2 ^ 64
    → memset (suc fuel) obj start c sz ≡ fault
unfolding memset
memset-fault fuel obj start c sz pos past small = ground arith

-- What is copied to a place is read back from it.
pub copy_from-copy_to :
    (obj : List ℕ) (i : ℕ) (bytes : List ℕ)
    → i + length bytes ≤ length obj
    → (out : List ℕ) × (copy_to obj i bytes ≡ ok out)
      × (copy_from out i (length bytes) ≡ ok bytes)
      × (length out ≡ length obj)
unfolding copy_to copy_from
copy_from-copy_to obj i bytes fits =
    let rest = drop (i + length bytes) obj in
    let out = take i obj ++ (bytes ++ rest) in
    let len : length out ≡ length obj = length-take_append_drop i obj bytes fits in
    (
      out,
      ground arith,
      ground (arith, len, drop-take_append i obj (bytes ++ rest), take-append_length bytes rest),
      len,
    )
