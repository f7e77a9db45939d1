-- ===== src/Kernel/Status.antt =====
-- kernel/fs/stat.c and kernel/fs/superblock.c.
pub mod Replies
use yaup.Base.{
  ℕ, ◌+◌, ◌*◌, ◌/◌, ◌%◌, ◌^◌, Bool, true, false, Option, none, some, List, if◌then◌else◌, get_elem?,
  set, ok, Cmd, ◌>>=◌, ◌>>◌, pure, panics, faults, gets, deref, or_panic, ℤ, at_least,
}
use yaup.Errno.{enoent}
use yaup.Kernel.Host.{
  Host, Kernel, File, Inode, Proc, Stat, acquire, release, mtable_lock, nr_ofiles, blk_sz,
}
use yaup.Kernel.Block.{lock_call, buffer_at, bread, brelease}
use yaup.Kernel.Inodes.{inode_at, ilock, iput, irelease}
use yaup.Kernel.Namei.{namei}
use yaup.Kernel.ReadWrite.{file_at, filp_at}

-- Linux's value: include/errno.h has no EBADFD.
abbrev pub ebadfd : ℕ
ebadfd = 77

-- What `sys_stat` and `sys_fstat` give: 0 and the structure, or the negative of an error code.
pub data Reply : Type 0 where
  done : Stat → Reply
  refused : ℕ → Reply

-- The structure, but for its `st_blocks`.
unfoldable pub fill : Inode → ℕ → Stat
fill i blocks = record {
  st_dev = i.i_dev;
  st_ino = i.i_num;
  st_mode = i.core.i_mode;
  st_nlink = i.core.i_nlink;
  st_uid = i.core.i_uid;
  st_gid = i.core.i_gid;
  st_rdev = 0;
  st_size = i.core.i_size;
  st_blksize = blk_sz;
  st_blocks = blocks;
  st_atim = i.core.i_atime;
  st_mtim = i.core.i_mtime;
  st_ctim = i.core.i_ctime;
}

-- `st_blocks` has 32 bits. `sys_fstat` reads `i->i_size / 512*1024` from left to right.
unfoldable pub stat_blocks : ℕ → ℕ
stat_blocks size = size / 1024 % 2 ^ 32

unfoldable pub fstat_blocks : ℕ → ℕ
fstat_blocks size = size / 512 * 1024 % 2 ^ 64 % 2 ^ 32

module _ (h : Host) where
  -- `namei` returns no null pointer: it panics.
  unfoldable pub sys_stat : List ℕ → Cmd (Kernel h) Reply
  sys_stat path = do
    k ← namei h path
    ilock h k
    i ← inode_at h k
    iput h k
    irelease h k
    pure (done (fill i (stat_blocks i.core.i_size)))

  -- The part of `sys_fstat` behind the descriptor.
  unfoldable pub fstat_file : Option ℕ → Cmd (Kernel h) Reply
  fstat_file none = pure (refused enoent)
  fstat_file (some fi) = do
    f ← file_at h fi
    k ← or_panic f.f_inode "sys_fstat: cannot get inode"
    ilock h k
    i ← inode_at h k
    irelease h k
    pure (done (fill i (fstat_blocks i.core.i_size)))

  unfoldable pub sys_fstat : ℤ → Cmd (Kernel h) Reply
  unfolding fstat_file
  sys_fstat fd =
      if at_least nr_ofiles fd
      then pure (refused ebadfd)
      else (do c ← gets (λ s. s.current); p ← deref c; entry ← filp_at h p fd; fstat_file entry)

  -- The superblock is in block 1; it is stored at `*sb`, which the result stands for, and in
  -- the table of mounted devices.
  unfoldable pub sbread : ℕ → Cmd (Kernel h) (Unit {0})
  sbread dev = do
    lock_call h (acquire mtable_lock)
    b ← bread h dev 1
    c ← buffer_at h b
    t ← gets (λ s. s.mtable)
    deref (get_elem? t dev)
    (λ s. ok (tt, record s { mtable = set s.mtable dev (h.superblock_of_bytes c.b_data) }))
    brelease h b
    lock_call h (release mtable_lock)
