-- ===== src/Kernel/Status/Replies.antt =====
-- What `sys_fstat` and `sys_stat` reply.
use yaup.Base.{
  ℕ, ◌+◌, ◌*◌, ◌%◌, ◌<◌, ◌≤◌, ◌≡◌, none, some, ◌∷◌, arith, if◌then◌else◌, get_elem?, set, ok, pos,
  ◌^◌,
}
use yaup.Errno.{enoent}
use yaup.Kernel.Host.{
  Host, Kernel, Proc, File, Inode, acquire, release, inode_entry, icache_lock, nr_ofiles,
}
use yaup.Kernel.Inodes.{ilock, irelease}
use yaup.Kernel.ReadWrite.Seek.{IsOpen}
use yaup.Kernel.Status.{done, refused, ebadfd, fill, fstat_blocks, stat_blocks, sys_fstat}

-- A descriptor past the table and one that is not open are refused, and nothing changes.
pub sys_fstat-refused :
    (h : Host) (s : Kernel h) (fd : ℕ)
    → (nr_ofiles ≤ fd → sys_fstat h (pos fd) s ≡ ok (refused ebadfd, s))
      × ((p : Proc)
          → fd < nr_ofiles
          → s.current ≡ some p
          → get_elem? p.p_filp fd ≡ some none
          → sys_fstat h (pos fd) s ≡ ok (refused enoent, s))
unfolding sys_fstat
sys_fstat-refused h s fd = (λ le. ground arith, λ p lt run e. ground arith)

module _ (h : Host) (s : Kernel h) (fd fi : ℕ) (p : Proc) (f : File) (k : ℕ) (i : Inode)
    (o : IsOpen s fd fi p f k i) where
  -- `sys_fstat` on an open descriptor replies the fields of its inode. The inode has one user less
  -- afterwards, if its lock counts as held.
  pub sys_fstat-fill :
      let locked =
        if h.holdingsleep s.calls icache_lock then acquire (inode_entry k) ∷ s.calls else s.calls in
      let held = h.holdingsleep locked (inode_entry k) in
      sys_fstat h (pos fd) s
      ≡ ok (
        done (fill i (fstat_blocks i.core.i_size)),
        record s {
          icache =
              if held
              then set s.icache k (record i { i_count = (i.i_count + 255) % 256 })
              else s.icache;
          calls = if held then release (inode_entry k) ∷ locked else locked;
        },
      )
  unfolding sys_fstat ilock irelease
  sys_fstat-fill = ground (arith, o.fd_small, o.running, o.entry, o.file, o.has_inode, o.inode)

-- For a file of whole kilobytes below 2 MiB, the block count of `sys_fstat` is 2048 times that of
-- `sys_stat`.
pub fstat_blocks-stat_blocks :
    (size : ℕ) → size % 1024 ≡ 0 → size < 2 ^ 21 → fstat_blocks size ≡ 2048 * stat_blocks size
unfolding fstat_blocks stat_blocks
fstat_blocks-stat_blocks size whole small = omega arith
