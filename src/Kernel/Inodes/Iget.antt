-- ===== src/Kernel/Inodes/Iget.antt =====
-- `iget`: a cached inode is found, and another one is read from its block.
use yaup.Base.{
  ℕ, ◌+◌, ◌<◌, ◌≤◌, ◌≡◌, refl, ap, ◌∙◌, true, none, some, ◌∷◌, arith, length, take, drop, get_elem?,
  set, find_index, find_index_found, ok, panic, leb,
}
use yaup.Kernel.Host.{
  Host, Kernel, Inode, Superblock, IsLawful, acquire, release, initlock, icache_lock, inode_entry,
  blk_sz,
}
use yaup.Kernel.Memory.{copy_from}
use yaup.Kernel.Block.Synced.{IsSynced, spare, Holds-move, Holds-data, bread-Holds, brelease-Holds}
use yaup.Kernel.Inodes.{is_inode, unused_inode, blk_addr, blk_off, load_inode, iget, inode_block}

module _ (h : Host) (dev ino : ℕ) (s : Kernel h) where
  -- A cached inode is returned as it is.
  pub iget-cached :
      (k : ℕ)
      → find_index (is_inode dev ino) s.icache ≡ some k
      → iget h dev ino s
        ≡ ok (k, record s { calls = release icache_lock ∷ acquire icache_lock ∷ s.calls })
  unfolding iget
  iget-cached k e = ground arith

  -- Without an unused entry `iget` panics.
  pub iget-full :
      find_index (is_inode dev ino) s.icache ≡ none
      → find_index unused_inode s.icache ≡ none
      → iget h dev ino s ≡ panic "iget: no free inodes"
  unfolding iget
  iget-full e f = ground arith

  -- An inode that is not cached is read from its block into the first unused entry of the cache,
  -- with one user, and the disk is unchanged, if the device has a superblock, the block has room
  -- for the whole inode, every buffer in use equals its block of the disk, and the buffer cache has
  -- an unused buffer.
  pub iget-load :
      (k : ℕ) (old : Inode) (sb : Superblock)
      → IsLawful h
      → IsSynced s
      → 0 < spare s
      → find_index (is_inode dev ino) s.icache ≡ none
      → find_index unused_inode s.icache ≡ some k
      → get_elem? s.icache k ≡ some old
      → get_elem? s.mtable dev ≡ some sb
      → blk_off h ino + h.inode_size ≤ blk_sz
      → let block = h.read_block s.disk dev (blk_addr h sb ino) in
        let new : Inode = record {
          core = h.inode_of_bytes (take h.inode_size (drop (blk_off h ino) block));
          i_num = ino;
          i_dev = dev;
          i_flag = old.i_flag;
          i_count = 1;
        } in
        (t : Kernel h) × (iget h dev ino s ≡ ok (k, t))
        × (t.icache ≡ set s.icache k new)
        × (t.disk ≡ s.disk)
        × IsSynced t
  unfolding iget load_inode inode_block copy_from unused_inode
  iget-load k old sb law v room miss free g gs fits =
      let s1 : Kernel h = record s { calls = acquire icache_lock ∷ s.calls } in
      let (b, t, r, holds, v', sp, same) = bread-Holds h dev (blk_addr h sb ino) s1 v room in
      let (old', g', z) = find_index_found unused_inode s.icache k free in
      let block = h.read_block s.disk dev (blk_addr h sb ino) in
      let new : Inode = record {
        core = h.inode_of_bytes (take h.inode_size (drop (blk_off h ino) block));
        i_num = ino;
        i_dev = dev;
        i_flag = old.i_flag;
        i_count = 1;
      } in
      let t1 : Kernel h = record t {
        icache = set t.icache k new;
        calls = initlock (inode_entry k) ∷ t.calls;
      } in
      let (u, r', v2, sp', same') =
        brelease-Holds h dev (blk_addr h sb ino) b t1 v' (Holds-move holds refl) in
      let bytes : holds.buffer.b_data ≡ block =
        Holds-data h t dev (blk_addr h sb ino) b v' holds
        ∙ ap (λ d. h.read_block d dev (blk_addr h sb ino)) same.disk in
      let fit : leb (blk_off h ino + h.inode_size) (length block) ≡ true =
        ground (arith, law.length_read s.disk dev (blk_addr h sb ino)) in
      (
        record u { calls = release icache_lock ∷ u.calls },
        ground (arith, r, r', holds.found, bytes, fit, same.icache, g, z, g'),
        same'.icache ∙ ap (λ c. set c k new) same.icache,
        same'.disk ∙ same.disk,
        v2,
      )
