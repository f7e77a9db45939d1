-- ===== src/Tools/Cksum/Blocks.antt =====
-- Which files `crc32` gets through.
use yaup.Base.{
  ℕ, suc, ◌-◌, ◌^◌, ◌<◌, ◌≤◌, ◌≡◌, refl, ap, ◌∙◌, true, false, List, [], ◌∷◌, ◌++◌, length, take,
  drop, length-append, length-drop, length-take, arith, ok, fault, pos, negsuc,
}
use yaup.Tools.Cksum.{crc_step, fill_buf, crc_run, read_block, crc_loop, crc32}

abbrev pub crc_of : List ℕ → ℕ → ℕ
crc_of [] crc = crc
crc_of (b ∷ bs) crc = crc_of bs (crc_step crc b)

crc_run-crc_of :
    (buf : List ℕ) (crc : ℕ) → crc_run (pos (length buf)) buf crc ≡ ok (negsuc 0, crc_of buf crc)
unfolding crc_run
crc_run-crc_of [] crc = refl
crc_run-crc_of (b ∷ buf) crc = crc_run-crc_of buf (crc_step crc b)

crc_run-fault : (n : ℕ) (buf : List ℕ) (crc : ℕ) → crc_run (negsuc n) buf crc ≡ fault
unfolding crc_run
crc_run-fault n [] crc = refl
crc_run-fault n (b ∷ buf) crc = crc_run-fault (suc n) buf (crc_step crc b)

fill_buf-short :
    (fp buf : List ℕ)
    → length fp < length buf
    → fill_buf fp buf ≡ (fp ++ (255 ∷ drop 1 (drop (length fp) buf)), true, [])
unfolding fill_buf
fill_buf-short fp [] lt = ground arith
fill_buf-short [] (b ∷ buf) lt = refl
fill_buf-short (c ∷ fp) (b ∷ buf) lt = ground (arith, fill_buf-short fp buf (omega arith))

fill_buf-long :
    (fp buf : List ℕ)
    → length buf ≤ length fp
    → fill_buf fp buf ≡ (take (length buf) fp, false, drop (length buf) fp)
unfolding fill_buf
fill_buf-long fp [] le = refl
fill_buf-long [] (b ∷ buf) le = ground arith
fill_buf-long (c ∷ fp) (b ∷ buf) le = ground (arith, fill_buf-long fp buf (omega arith))

-- With a buffer of eight bytes, a file of fewer than eight has a checksum: that of its bytes, the
-- 255 for its end, and what the rest of the buffer holds.
pub crc32-short :
    (fp buf : List ℕ)
    → length buf ≡ 8
    → length fp < 8
    → crc32 buf fp
      ≡ ok (2 ^ 32 - 1 - crc_of (fp ++ (255 ∷ drop 1 (drop (length fp) buf))) (2 ^ 32 - 1))
unfolding crc32 crc_loop read_block
crc32-short fp buf full short =
    let block = fp ++ (255 ∷ drop 1 (drop (length fp) buf)) in
    let eight : 8 ≡ length block = omega (
      arith,
      length-append fp (255 ∷ drop 1 (drop (length fp) buf)),
      length-drop 1 (drop (length fp) buf),
      length-drop (length fp) buf,
    ) in
    let run : crc_run (pos 8) block (2 ^ 32 - 1) ≡ ok (negsuc 0, crc_of block (2 ^ 32 - 1)) =
      ap (λ n. crc_run (pos n) block (2 ^ 32 - 1)) eight ∙ crc_run-crc_of block (2 ^ 32 - 1) in
    ground (arith, fill_buf-short fp buf (omega arith), run)

-- With a buffer of eight bytes, a file of eight bytes or more is read past the buffer: a fault.
pub crc32-long : (fp buf : List ℕ) → length buf ≡ 8 → 8 ≤ length fp → crc32 buf fp ≡ fault
unfolding crc32 crc_loop read_block
crc32-long fp buf full long =
    let block = take (length buf) fp in
    let eight : 8 ≡ length block = omega (arith, length-take (length buf) fp) in
    let crc = crc_of block (2 ^ 32 - 1) in
    let run : crc_run (pos 8) block (2 ^ 32 - 1) ≡ ok (negsuc 0, crc) =
      ap (λ n. crc_run (pos n) block (2 ^ 32 - 1)) eight ∙ crc_run-crc_of block (2 ^ 32 - 1) in
    ground (arith, fill_buf-long fp buf (omega arith), run, crc_run-fault 0 block crc)
