-- ===== src/Kernel/Memory.antt =====
-- kernel/mem/string.c, and the copies between an object's bytes that the file system makes.
pub mod Laws
use yaup.Base.{
  ℕ, zero, suc, ◌+◌, ◌-◌, ◌*◌, ◌/◌, ◌%◌, ◌^◌, Option, none, some, List, [], ◌∷◌, ◌++◌, length, set,
  take, drop, leb, if◌then◌else◌, Run, ok, fault, out_of_fuel,
}

-- The four bytes of an `int`.
unfoldable pub put_int : List ℕ → ℕ → ℕ → List ℕ
put_int obj i c =
    let b = set obj i (c % 256) in
    let b = set b (i + 1) (c / 256 % 256) in
    let b = set b (i + 2) (c / 256 / 256 % 256) in set b (i + 3) (c / 256 / 256 / 256 % 256)

-- `while (--sz >= 0) *((int*)dst+sz) = c;` where `dst` points to byte `start` of the object: `sz` is
-- unsigned, and the step is that of an `int`.
unfoldable pub memset : ℕ → List ℕ → ℕ → ℕ → ℕ → Run (List ℕ)
memset zero obj start c sz = out_of_fuel
memset (suc fuel) obj start c sz =
    let sz' = (sz + 2 ^ 64 - 1) % 2 ^ 64 in
    let i = (start + 4 * sz') % 2 ^ 64 in
    let rest = memset fuel (put_int obj i c) start c sz' in
    if leb 0 sz' then (if leb (i + 4) (length obj) then rest else fault) else ok obj

-- `memcpy` from byte `i` of an object on, and to it; a copy that passes the end is a fault.
unfoldable pub copy_from : List ℕ → ℕ → ℕ → Run (List ℕ)
copy_from obj i n = if leb (i + n) (length obj) then ok (take n (drop i obj)) else fault

unfoldable pub copy_to : List ℕ → ℕ → List ℕ → Run (List ℕ)
copy_to obj i bytes =
    if leb (i + length bytes) (length obj)
    then ok (take i obj ++ (bytes ++ drop (i + length bytes) obj))
    else fault
