-- ===== src/Kernel/Sample/Facts.antt =====
-- What the small system satisfies.
use yaup.Base.{zero, suc, refl, arith}
use yaup.Kernel.Sample.{system, opened, proc0, file_inode}
use yaup.Kernel.Block.Synced.{IsSynced}
use yaup.Kernel.Inodes.Iput.{IsClean}
use yaup.Kernel.ReadWrite.Seek.{IsOpen}

pub system-IsSynced : IsSynced system
system-IsSynced zero b g nz = ground arith
system-IsSynced (suc zero) b g nz = ground arith
system-IsSynced (suc (suc i)) b g nz = ground arith

pub system-IsClean : IsClean system
system-IsClean zero b g = ground arith
system-IsClean (suc zero) b g = ground arith
system-IsClean (suc (suc i)) b g = ground arith

-- Descriptor 3 is open on the file's inode.
pub system-IsOpen : IsOpen system 3 0 proc0 opened 1 file_inode
system-IsOpen = record {
  fd_small = omega arith;
  running = refl;
  entry = refl;
  file = refl;
  has_inode = refl;
  inode = refl;
}
