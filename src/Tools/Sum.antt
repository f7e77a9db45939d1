-- ===== src/Tools/Sum.antt =====
-- busybox/sum.c
pub mod Detects
use yaup.Base.{ℕ, ◌+◌, ◌*◌, ◌/◌, ◌%◌, ◌^◌, List, [], ◌∷◌, ◌++◌, if◌then◌else◌, ◌==◌}
use yaup.Errno.{enfile, einval}
use yaup.Kernel.Host.{Stat}
use yaup.Shell.Text.{decimal}
use yaup.Tools.Os.{Os, FilePath}
use yaup.Tools.Program.{Prog, Process, ◌>>◌, pure, exits, faults, put}
use yaup.Tools.Program.Args.{for_files}

-- Rotated right by a bit, plus the byte, in 16 bits.
unfoldable pub sum_step : ℕ → ℕ → ℕ
sum_step checksum c = (checksum / 2 + checksum % 2 * 2 ^ 15 + c) % 2 ^ 16

unfoldable pub sum_loop : ℕ → List ℕ → ℕ
sum_loop checksum [] = checksum
sum_loop checksum (c ∷ cs) = sum_loop (sum_step checksum c) cs

unfoldable pub sum : List ℕ → ℕ
sum fp = sum_loop 0 fp

-- The line of a file of `size` bytes in blocks of `blksize`.
unfoldable pub sum_line : List ℕ → ℕ → FilePath → List ℕ
sum_line fp blocks name = decimal (sum fp) ++ (9 ∷ (decimal blocks ++ (32 ∷ (name ++ (10 ∷ [])))))

module _ {o : Os} where
  -- A division by 0 is a fault.
  unfoldable pub sum_file : Stat → FilePath → List ℕ → Prog (Process o) (Unit {0})
  sum_file st name fp =
      if st.st_blksize == 0 then faults else put (sum_line fp (st.st_size / st.st_blksize) name)

module _ (o : Os) where
  unfoldable pub sum_main : Stat → List FilePath → Prog (Process o) ℕ
  sum_main st [] = exits einval
  sum_main st (a ∷ args) = for_files o enfile sum_file st (a ∷ args) >> pure 0
