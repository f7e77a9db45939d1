-- ===== src/Kernel/Inodes/Iput.antt =====
-- `iput`: where a changed inode goes.
use yaup.Base.{
  ℕ, ◌+◌, ◌%◌, ◌<◌, ◌≤◌, ◌≡◌, sym, ap, ◌∙◌, true, false, some, ◌∷◌, arith, length, get_elem?, set,
  get_elem?-set_self, get_elem?-set_cases, inl, inr, ok, Option-cases,
}
use yaup.Kernel.Host.{
  Host, Kernel, Inode, Buffer, Superblock, IsLawful, acquire, release, inode_entry, buffer_entry,
  blk_sz,
}
use yaup.Kernel.Memory.{copy_from}
use yaup.Kernel.Memory.Laws.{copy_from-copy_to}
use yaup.Kernel.Block.{bread}
use yaup.Kernel.Block.Bread.{slot, load, bread-load, bread-full}
use yaup.Kernel.Block.Synced.{IsSynced, spare, Holds-data, bread-Holds}
use yaup.Kernel.Block.Write.{bwrite-clean}
use yaup.Kernel.Inodes.{is_dirty, clean_flag, blk_addr, blk_off, iput, inode_block}

abbrev pub IsClean : {h : Host} → Kernel h → Type 0
IsClean s = (i : ℕ) (b : Buffer) → get_elem? s.buffers i ≡ some b → b.b_dirty ≡ 0

pub bread-IsClean :
    (h : Host) (dev blk : ℕ) (s t : Kernel h) (i : ℕ)
    → IsClean s
    → bread h dev blk s ≡ ok (i, t)
    → IsClean t
unfolding load
bread-IsClean h dev blk s t i clean e = elim (Option-cases (slot dev blk s.buffers)) [
  | inl full ↦ absurd (ground (arith, bread-full h dev blk s full))
  | inr (j, found) ↦
      let (old, g, (cs, r)) = bread-load h dev blk s j found in
      let new = load dev blk (h.read_block s.disk dev blk) old in
      let same : t.buffers ≡ set s.buffers j new = ground (arith, r, e) in
      λ l c gl.
        elim (get_elem?-set_cases s.buffers j l new c g
          (ap (λ bs. get_elem? bs l) (sym same) ∙ gl)) [
            | inl (p, q) ↦ ground (arith, clean j old g)
            | inr (n, gl') ↦ clean l c gl'
          ]
]

module _ (h : Host) (k : ℕ) (s : Kernel h) (i : Inode) (g : get_elem? s.icache k ≡ some i) where
  -- An unchanged inode keeps its users, and its lock is not released.
  pub iput-unchanged :
      is_dirty i ≡ false
      → iput h k s ≡ ok (0, record s { calls = acquire (inode_entry k) ∷ s.calls })
  unfolding iput
  iput-unchanged clean = ground arith

  -- When no buffer is dirty, every buffer in use equals its block and one is unused, `iput` of a
  -- changed inode of a device with a superblock copies it to its place in the buffer of its block,
  -- if it fits there, and leaves the disk as it was.
  pub iput-stored :
      (sb : Superblock)
      → IsLawful h
      → IsSynced s
      → IsClean s
      → 0 < spare s
      → is_dirty i ≡ true
      → get_elem? s.mtable i.i_dev ≡ some sb
      → blk_off h i.i_num + h.inode_size ≤ blk_sz
      → (t : Kernel h) × (b : ℕ) × (c : Buffer) × (iput h k s ≡ ok (0, t))
        × (get_elem? t.buffers b ≡ some c)
        × (c.b_dev ≡ i.i_dev)
        × (c.b_blk ≡ blk_addr h sb i.i_num)
        × (copy_from c.b_data (blk_off h i.i_num) h.inode_size ≡ ok (h.bytes_of_inode i.core))
        × (t.disk ≡ s.disk)
  unfolding iput inode_block
  iput-stored sb law v clean room dirty gs fits =
      let s1 : Kernel h = record s { calls = acquire (inode_entry k) ∷ s.calls } in
      let blk = blk_addr h sb i.i_num in
      let (b, t, r, holds, v', sp, same) = bread-Holds h i.i_dev blk s1 v room in
      let c = holds.buffer in
      let fit : blk_off h i.i_num + length (h.bytes_of_inode i.core) ≤ length c.b_data = omega (
        arith,
        ap length (Holds-data h t i.i_dev blk b v' holds),
        law.length_read t.disk i.i_dev blk,
        law.length_inode i.core,
      ) in
      let (out, cp, back, len) =
        copy_from-copy_to c.b_data (blk_off h i.i_num) (h.bytes_of_inode i.core) fit in
      let c1 = record c { b_data = out } in
      let t1 : Kernel h = record t { buffers = set t.buffers b c1 } in
      let u : Kernel h = record t1 {
        icache =
            set t.icache k (record i { i_flag = clean_flag i; i_count = (i.i_count + 255) % 256 });
        calls =
            release (inode_entry k) ∷ release (buffer_entry b) ∷ acquire (buffer_entry b) ∷ t.calls;
      } in
      let w =
        bwrite-clean h t1 b c1 (get_elem?-set_self t.buffers b c1 holds.found)
          (bread-IsClean h i.i_dev blk s1 t b clean r b c holds.found) in
      (
        u,
        b,
        c1,
        ground (arith, r, w, cp, holds.found, g, gs, same.icache),
        get_elem?-set_self t.buffers b c1 holds.found,
        holds.dev_named,
        holds.blk_named,
        ap (λ n. copy_from out (blk_off h i.i_num) n) (sym (law.length_inode i.core)) ∙ back,
        same.disk,
      )
