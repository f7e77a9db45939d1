-- ===== src/Kernel/ReadWrite/Flags.antt =====
-- The test of the opening mode in `sys_read` and `sys_write`.
use yaup.Base.{ℕ, ◌≡◌, false, arith, suc}
use yaup.Base.Bits.{bit_and-zero}
use yaup.Kernel.Host.{File}
use yaup.Kernel.ReadWrite.{flag_refused}

-- `f->f_flag & FREAD == 0` is `f->f_flag & 0`: whatever the flags, nothing is refused.
pub flag-ignored : (f : File) (n : ℕ) → flag_refused f (suc n) ≡ false
unfolding flag_refused
flag-ignored f n = ground (arith, bit_and-zero f.f_flag)
