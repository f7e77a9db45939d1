-- ===== src/Tools/Cksum.antt =====
-- busybox/cksum.c
mod Table
pub mod Polynomial
pub mod Blocks
pub mod Main
unfoldable pub use Table.{crc32tab}
use yaup.Base.{
  ℕ, zero, suc, ◌+◌, ◌-◌, ◌/◌, ◌%◌, ◌^◌, Bool, true, false, List, [], ◌∷◌, ◌++◌, if◌then◌else◌,
  get_or, bit_xor, Run, ok, panic, fault, out_of_fuel, ℤ, pos, negsuc,
}
use yaup.Errno.{einval}
use yaup.Shell.Text.{decimal}
use yaup.Tools.Os.{Os, FilePath}
use yaup.Tools.Program.{Prog, Process, ◌>>=◌, ◌>>◌, pure, exits, err, open_read, bytes_of, put}
use yaup.Tools.Program.Print.{run}

-- The macro `CRC32`. The sign of the character does not reach the index.
unfoldable pub crc_step : ℕ → ℕ → ℕ
crc_step crc ch = bit_xor (crc / 256) (get_or crc32tab (bit_xor crc ch % 256) 0)

-- `for (i = 0; i < nr; i++) if (!feof(fp)) buf[i] = fgetc(fp);` with `nr` the length of what is left
-- of the buffer: the buffer, whether the end was met, and the rest of the file. EOF is stored as
-- 255.
unfoldable pub fill_buf : List ℕ → List ℕ → List ℕ × Bool × List ℕ
fill_buf fp [] = ([], false, fp)
fill_buf [] (b ∷ buf) = (255 ∷ buf, true, [])
fill_buf (c ∷ fp) (b ∷ buf) = let (buf', eof, rest) = fill_buf fp buf in (c ∷ buf', eof, rest)

abbrev pub minus_one : ℤ → ℤ
minus_one (pos zero) = negsuc 0
minus_one (pos (suc n)) = pos n
minus_one (negsuc n) = negsuc (suc n)

-- `for (p = buf; nr--; ++p) CRC32(crc, *p);`: `nr` and `crc` afterwards. A read past the buffer is
-- a fault.
unfoldable pub crc_run : ℤ → List ℕ → ℕ → Run (ℤ × ℕ)
crc_run (pos zero) buf crc = ok (negsuc 0, crc)
crc_run (pos (suc n)) [] crc = fault
crc_run (pos (suc n)) (b ∷ buf) crc = crc_run (pos n) buf (crc_step crc b)
crc_run (negsuc n) [] crc = fault
crc_run (negsuc n) (b ∷ buf) crc = crc_run (negsuc (suc n)) buf (crc_step crc b)

-- Nothing is read when `nr` is negative.
unfoldable pub read_block : ℤ → List ℕ → List ℕ → List ℕ × Bool × List ℕ
read_block (pos n) fp buf = fill_buf fp buf
read_block (negsuc n) fp buf = (buf, false, fp)

unfoldable pub crc_loop : ℕ → ℤ → Bool → List ℕ → List ℕ → ℕ → Run ℕ
crc_loop zero nr eof fp buf crc = out_of_fuel
crc_loop (suc fuel) nr true fp buf crc = ok (2 ^ 32 - 1 - crc)
crc_loop (suc fuel) nr false fp buf crc =
    let (buf', eof', rest) = read_block nr fp buf in
    elim (crc_run nr buf' crc) [
      | ok (nr', crc') ↦ crc_loop fuel nr' eof' rest buf' crc'
      | panic m ↦ panic m
      | fault ↦ fault
      | out_of_fuel ↦ out_of_fuel
    ]

-- `buf` is what the eight bytes of the buffer hold at first. The loop is left, or faults, in its
-- second round.
unfoldable pub crc32 : List ℕ → List ℕ → Run ℕ
crc32 buf fp = crc_loop 2 (pos 8) false fp buf (2 ^ 32 - 1)

-- Nothing writes to the counter of octets, which is printed as 0.
unfoldable pub crc_line : ℕ → FilePath → List ℕ
crc_line crc name = decimal crc ++ (32 ∷ (48 ∷ (32 ∷ (name ++ (10 ∷ [])))))

module _ (o : Os) where
  -- `buf` is what the memory that is allocated for each file holds at first.
  unfoldable pub cksum_files : (FilePath → List ℕ) → List FilePath → Prog (Process o) ℕ
  cksum_files buf [] = pure 0
  cksum_files buf (a ∷ args) = open_read a >>= λ opened.
      if opened
      then (bytes_of a >>= λ fp.
          run (crc32 (buf a) fp) >>= λ crc. put (crc_line crc a) >> cksum_files buf args)
      else err

  unfoldable pub cksum_main : (FilePath → List ℕ) → List FilePath → Prog (Process o) ℕ
  cksum_main buf [] = exits einval
  cksum_main buf (a ∷ args) = cksum_files buf (a ∷ args)
