-- ===== src/Kernel/Inodes.antt =====
-- kernel/fs/inode.c: the cache of inodes. The C names are kept; `inodes_init` is empty.
pub mod Iget
pub mod Iput
use yaup.Base.{
  ℕ, zero, suc, ◌+◌, ◌-◌, ◌*◌, ◌/◌, ◌%◌, ◌^◌, Bool, true, false, ◌&&◌, Option, none, some, List, [],
  ◌∷◌, if◌then◌else◌, ◌==◌, ltb, bit_and, get_elem?, set, find_index, Run, ok, panic, fault,
  out_of_fuel, Cmd, ◌>>=◌, ◌>>◌, pure, panics, gets, deref, lift,
}
use yaup.Kernel.Host.{
  Host, Kernel, Inode, DInode, Superblock, acquire, release, initlock, icache_lock, inode_entry,
  blk_sz,
}
use yaup.Kernel.Memory.{memset, copy_from, copy_to}
use yaup.Kernel.Bitmap.{at_words, get_free_pos}
use yaup.Kernel.Block.{lock_call, buffer_at, set_buffer, superblock_at, bread, bwrite, brelease}

-- IDIRT of fs.h
abbrev pub idirt : ℕ
idirt = 2

-- `i->i_flag & IDIRT` as a truth value, and `i->i_flag &= !IDIRT`, in which `!` is the logical not.
unfoldable pub is_dirty : Inode → Bool
is_dirty i = if bit_and i.i_flag idirt == 0 then false else true

unfoldable pub clean_flag : Inode → ℕ
clean_flag i = bit_and i.i_flag (if idirt == 0 then 1 else 0)

unfoldable pub is_inode : ℕ → ℕ → Inode → Bool
is_inode dev ino i = i.i_dev == dev && i.i_num == ino

unfoldable pub unused_inode : Inode → Bool
unused_inode i = i.i_count == 0

-- The 16-bit words that the bytes of a block make on a little-endian machine.
unfoldable pub words_of : List ℕ → List ℕ
words_of [] = []
words_of (a ∷ []) = []
words_of (a ∷ b ∷ rest) = (a + 256 * b) ∷ words_of rest

module _ (h : Host) where
  -- INO_PER_BLK, BLK_ADDR and BLK_OFF
  unfoldable pub ino_per_blk : ℕ
  ino_per_blk = blk_sz / h.inode_size

  unfoldable pub blk_addr : Superblock → ℕ → ℕ
  unfolding ino_per_blk
  blk_addr sb ino = sb.s_ino_table + ino / ino_per_blk

  unfoldable pub blk_off : ℕ → ℕ
  unfolding ino_per_blk
  blk_off ino = ino % ino_per_blk

  abbrev pub inode_at : ℕ → Cmd (Kernel h) Inode
  inode_at k s = deref (get_elem? s.icache k) s

  abbrev pub set_inode : ℕ → Inode → Cmd (Kernel h) (Unit {0})
  set_inode k i s = ok (tt, record s { icache = set s.icache k i })

  -- The block that holds an inode.
  unfoldable pub inode_block : ℕ → ℕ → Cmd (Kernel h) ℕ
  inode_block dev ino = do sb ← superblock_at h dev; bread h dev (blk_addr sb ino)

  -- The part of `iget` that fills the unused inode `k`.
  unfoldable pub load_inode : ℕ → ℕ → ℕ → Cmd (Kernel h) ℕ
  load_inode k dev ino = do
    b ← inode_block dev ino
    c ← buffer_at h b
    bytes ← lift (copy_from c.b_data (blk_off ino) h.inode_size)
    i ← inode_at k
    set_inode k (record {
      core = h.inode_of_bytes bytes;
      i_num = ino;
      i_dev = dev;
      i_flag = i.i_flag;
      i_count = (i.i_count + 1) % 256;
    })
    lock_call h (initlock (inode_entry k))
    brelease h b
    lock_call h (release icache_lock)
    pure k

  unfoldable pub iget : ℕ → ℕ → Cmd (Kernel h) ℕ
  iget dev ino = do
    lock_call h (acquire icache_lock)
    is ← gets (λ s. s.icache)
    elim (find_index (is_inode dev ino) is) [
      | some k ↦ do lock_call h (release icache_lock); pure k
      | none ↦ elim (find_index unused_inode is) [
        | some k ↦ load_inode k dev ino
        | none ↦ panics "iget: no free inodes"
      ]
    ]

  unfoldable pub iput : ℕ → Cmd (Kernel h) ℕ
  iput k = do
    lock_call h (acquire (inode_entry k))
    i ← inode_at k
    if is_dirty i
        then (do
          b ← inode_block i.i_dev i.i_num
          c ← buffer_at h b
          bytes ← lift (copy_to c.b_data (blk_off i.i_num) (h.bytes_of_inode i.core))
          set_buffer h b (record c { b_data = bytes })
          bwrite h b
          set_inode k (record i { i_flag = clean_flag i; i_count = (i.i_count + 255) % 256 })
          lock_call h (release (inode_entry k))
          pure 0)
        else pure 0

  unfoldable pub ilock : ℕ → Cmd (Kernel h) ℕ
  ilock k = do
    held ← gets (λ s. h.holdingsleep s.calls icache_lock)
    if held then (do lock_call h (acquire (inode_entry k)); pure 0) else pure 0

  -- `i->i_count < 0` never holds of an unsigned count.
  unfoldable pub irelease : ℕ → Cmd (Kernel h) ℕ
  irelease k = do
    i ← inode_at k
    held ← gets (λ s. h.holdingsleep s.calls (inode_entry k))
    if ltb i.i_count 0
        then panics "irelease: releasing an unussed inode"
        else if held
        then (do
          set_inode k (record i { i_count = (i.i_count + 255) % 256 })
          lock_call h (release (inode_entry k))
          pure 0)
        else pure 0

  -- The loop of `ialloc` with `n` blocks of the bitmap to go; `none` is the unset `i`.
  ialloc_loop : ℕ → ℕ → ℕ → ℕ → Cmd (Kernel h) (Option ℕ)
  ialloc_loop fuel zero dev blk = pure none
  ialloc_loop fuel (suc n) dev blk = do
    b ← bread h dev blk
    c ← buffer_at h b
    inum ← lift (get_free_pos fuel (at_words (words_of c.b_data)))
    if ltb 0 inum then (do k ← iget dev inum; pure (some k)) else ialloc_loop fuel n dev (blk + 1)

  unfoldable pub ialloc : ℕ → ℕ → Cmd (Kernel h) (Option ℕ)
  unfolding ialloc_loop
  ialloc fuel dev = do
    sb ← superblock_at h dev
    ialloc_loop fuel sb.s_free_ino_len dev sb.s_free_ino

  unfoldable pub ifree : ℕ → ℕ → Cmd (Kernel h) ℕ
  ifree fuel k = do
    lock_call h (acquire (inode_entry k))
    i ← inode_at k
    b ← inode_block i.i_dev i.i_num
    c ← buffer_at h b
    bytes ← lift (memset fuel c.b_data (blk_off i.i_num) 0 h.inode_size)
    set_buffer h b (record c { b_data = bytes })
    bwrite h b
    lock_call h (release (inode_entry k))
    pure 0
