-- ===== src/Kernel/WriteTests.antt =====
-- `sys_write` at the small system.
use yaup.Base.{ℕ, ◌≡◌, refl, some, [], ◌∷◌, get_elem?, ok, pos, arith}
use yaup.Kernel.Host.{Kernel, Buffer}
use yaup.Kernel.Sample.{host, host-IsLawful, system, opened, proc0, file_inode, disk0}
use yaup.Kernel.Sample.Facts.{system-IsSynced, system-IsClean, system-IsOpen}
use yaup.Kernel.Block.{unused}
use yaup.Kernel.ReadWrite.{
  sys_write, permitted, user_has_perm, group_has_perm, other_has_perm, has_bits,
}
use yaup.Kernel.ReadWrite.Read.{block_of}
use yaup.Kernel.ReadWrite.Write.{splice, sys_write-splice}

sys_write-splice_example :
    let blk = block_of file_inode 1 in
    (t : Kernel host) × (b : ℕ) × (c : Buffer) × (sys_write host 5
        (some 1)
        (pos 3)
        (77 ∷ 78 ∷ [])
        system
      ≡ ok (2, t))
    × (get_elem? t.open_files 0 ≡ some (record opened { f_off = 3 }))
    × (get_elem? t.buffers b ≡ some c)
    × (c.b_dev ≡ 0)
    × (c.b_blk ≡ blk)
    × (c.b_data ≡ splice (host.read_block disk0 0 blk) 1 (77 ∷ 78 ∷ []))
    × (c.b_dirty ≡ 0)
    × (t.disk ≡ disk0)
unfolding unused permitted user_has_perm group_has_perm other_has_perm has_bits
sys_write-splice_example =
    sys_write-splice host system 3 0 proc0 opened 1 file_inode system-IsOpen 5 (77 ∷ 78 ∷ [])
      host-IsLawful system-IsSynced system-IsClean refl refl (omega arith) (omega arith)
      (omega arith)
