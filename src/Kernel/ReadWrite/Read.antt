-- ===== src/Kernel/ReadWrite/Read.antt =====
-- The loop of `sys_read` against the bytes of the file on the disk.
use yaup.Base.{
  ℕ, zero, suc, ◌+◌, ◌*◌, ◌/◌, ◌%◌, ◌<◌, ◌≤◌, ◌≡◌, refl, ap, ◌∙◌, ◌≢◌, some, List, [], ◌∷◌, arith,
  length, get_elem?, get_or, set, get_elem?-set_self, get_elem?-get_or, ok,
}
use native.Mathlib.Decide.{ℕ_discrete}
use yaup.Kernel.Host.{Host, Kernel, File, Inode, IsLawful, blk_sz, addr_len}
use yaup.Kernel.Block.Synced.{
  IsSynced, spare, SameRest, SameRest-trans, Holds, bread-Holds, brelease-Holds,
}
use yaup.Kernel.ReadWrite.{baddr, next_block, turn_page, read_loop}

-- The block of a file that holds an offset, among its direct blocks.
abbrev pub block_of : Inode → ℕ → ℕ
block_of i off = get_or i.core.i_addr (off / blk_sz) 0

-- The bytes that a file has on the disk: `n` of them from `off` on.
module _ (h : Host) (d : h.Disk) (i : Inode) where
  unfoldable pub file_byte : ℕ → ℕ
  file_byte off = get_or (h.read_block d i.i_dev (block_of i off)) (off % blk_sz) 0

  unfoldable pub file_bytes : ℕ → ℕ → List ℕ
  file_bytes off zero = []
  file_bytes off (suc n) = file_byte off ∷ file_bytes (off + 1) n

-- An offset within the direct blocks that an inode has.
abbrev pub direct_size : ℕ
direct_size = addr_len * blk_sz

module _ (h : Host) (law : IsLawful h) (k : ℕ) (i : Inode)
    (full : length i.core.i_addr ≡ addr_len) where
  pub baddr-block_of :
      (f : File) (s : Kernel h)
      → f.f_inode ≡ some k
      → get_elem? s.icache k ≡ some i
      → f.f_off < direct_size
      → baddr h f s ≡ ok (block_of i f.f_off, s)
  unfolding baddr
  baddr-block_of f s e g lt = ground (arith, get_elem?-get_or i.core.i_addr (f.f_off / blk_sz) 0)

  pub next_block-Holds :
      (f : File) (s : Kernel h)
      → f.f_inode ≡ some k
      → get_elem? s.icache k ≡ some i
      → f.f_off < direct_size
      → IsSynced s
      → 0 < spare s
      → (b : ℕ) × (t : Kernel h) × (next_block h f s ≡ ok ((b, f.f_off % blk_sz), t))
        × Holds t i.i_dev (block_of i f.f_off) b
        × IsSynced t
        × (spare s ≤ spare t + 1)
        × SameRest s t
  unfolding next_block
  next_block-Holds f s e g lt v room =
      let (b, t, r, holds, v', sp, same) = bread-Holds h i.i_dev (block_of i f.f_off) s v room in
      (b, t, ground (arith, baddr-block_of f s e g lt, r), holds, v', sp, same)

  turn_page-next :
      (f : File) (s : Kernel h) (off b : ℕ)
      → f.f_inode ≡ some k
      → get_elem? s.icache k ≡ some i
      → f.f_off ≡ off + 1
      → off + 1 < direct_size
      → IsSynced s
      → Holds s i.i_dev (block_of i off) b
      → off % blk_sz + 1 ≡ blk_sz
      → 0 < spare s
      → (b' : ℕ) × (t : Kernel h) × (turn_page h b f (off % blk_sz) s
          ≡ ok ((b', (off + 1) % blk_sz), t))
        × Holds t i.i_dev (block_of i (off + 1)) b'
        × IsSynced t
        × (spare s ≤ spare t + 1)
        × SameRest s t
  unfolding turn_page
  turn_page-next f s off b e g at lt v holds last room =
      let (t, r, v', sp, same) = brelease-Holds h i.i_dev (block_of i off) b s v holds in
      let (b', u, r', holds', v2, sp', same') =
        next_block-Holds f t e (ap (λ c. get_elem? c k) same.icache ∙ g) (rw at lt) v'
          (omega arith) in
      (b', u, ground (arith, r, r'), rw at at holds', v2, omega arith, SameRest-trans same same')

  turn_page-stay :
      (f : File) (s : Kernel h) (off b : ℕ)
      → Holds s i.i_dev (block_of i off) b
      → off % blk_sz + 1 ≢ blk_sz
      → (turn_page h b f (off % blk_sz) s ≡ ok ((b, (off + 1) % blk_sz), s))
        × Holds s i.i_dev (block_of i (off + 1)) b
  unfolding turn_page
  turn_page-stay f s off b holds inside =
      let e : (off + 1) / blk_sz ≡ off / blk_sz = omega arith in (ground arith, rw e holds)

  -- The file `fi` is open on the inode at the offset `off`, and buffer `b` holds its block there.
  pub record IsReading (s : Kernel h) (fi : ℕ) (f : File) (off b : ℕ) : Type 0 where
    pub file : get_elem? s.open_files fi ≡ some f
    pub has_inode : f.f_inode ≡ some k
    pub inode : get_elem? s.icache k ≡ some i
    pub at_off : f.f_off ≡ off
    pub synced : IsSynced s
    pub holds : Holds s i.i_dev (block_of i off) b

  -- What a read of `n` bytes from `off` on returns and leaves behind.
  abbrev pub Reads : Kernel h → (fi b off n : ℕ) → Type 0
  Reads s fi b off n =
      (t : Kernel h) × (f : File) × (read_loop h n fi b (off % blk_sz) s
        ≡ ok (file_bytes h s.disk i off n, t))
      × (get_elem? t.open_files fi ≡ some f)
      × (f.f_off ≡ off + n)
      × (f.f_inode ≡ some k)
      × (t.disk ≡ s.disk)

  byte_at :
      (s : Kernel h) (off b : ℕ)
      → IsSynced s
      → (holds : Holds s i.i_dev (block_of i off) b)
      → get_elem? holds.buffer.b_data (off % blk_sz) ≡ some (file_byte h s.disk i off)
  unfolding file_byte
  byte_at s off b v holds =
      let e : holds.buffer.b_data ≡ h.read_block s.disk i.i_dev (block_of i off) =
        ground
          (arith, v b holds.buffer holds.found holds.in_use, holds.dev_named, holds.blk_named) in
      ap (λ d. get_elem? d (off % blk_sz)) e
      ∙ get_elem?-get_or _ (off % blk_sz) 0
          (omega (arith, law.length_read s.disk i.i_dev (block_of i off)))

  read_loop-step :
      (n : ℕ) (s t : Kernel h) (fi b b' off : ℕ) (f : File)
      → IsReading s fi f off b
      → off + 1 < direct_size
      → let f' = record f { f_off = off + 1 } in
        turn_page h b f' (off % blk_sz) (record s { open_files = set s.open_files fi f' })
          ≡ ok ((b', (off + 1) % blk_sz), t)
        → t.disk ≡ s.disk
        → Reads t fi b' (off + 1) n
        → Reads s fi b off (suc n)
  unfolding read_loop file_bytes
  read_loop-step n s t fi b b' off f is lt turn same (u, f2, r, g2, at2, in2, d2) =
      let e : f.f_off ≡ off = is.at_off in
      (
        u,
        f2,
        ground
            (arith, byte_at s off b is.synced is.holds, is.holds.found, is.file, e, turn, r, same),
        g2,
        omega (arith, at2),
        in2,
        d2 ∙ same,
      )

  -- The loop puts the file's bytes in the buffer and moves the cursor past them, if the bytes and
  -- the position after them lie in direct blocks and the cache has an unused buffer for each
  -- block that is entered.
  pub read_loop-file_bytes :
      (n : ℕ) (s : Kernel h) (fi : ℕ) (f : File) (off b : ℕ)
      → IsReading s fi f off b
      → off + n < direct_size
      → (off % blk_sz + n) / blk_sz ≤ spare s
      → Reads s fi b off n
  unfolding read_loop file_bytes
  read_loop-file_bytes zero s fi f off b is lt room =
      (s, f, refl, is.file, omega (arith, is.at_off), is.has_inode, refl)
  read_loop-file_bytes (suc n) s fi f off b is lt room =
      let f' = record f { f_off = off + 1 } in
      let s1 : Kernel h = record s { open_files = set s.open_files fi f' } in
      let placed : get_elem? s1.open_files fi ≡ some f' =
        get_elem?-set_self s.open_files fi f' is.file in
      let moved : Holds s1 i.i_dev (block_of i off) b = record {
        buffer = is.holds.buffer;
        found = is.holds.found;
        dev_named = is.holds.dev_named;
        blk_named = is.holds.blk_named;
        in_use = is.holds.in_use;
      } in
      elim (ℕ_discrete (off % blk_sz + 1) blk_sz) [
        | yes last ↦
            let (b', t, turn, holds, v, sp, same) =
              turn_page-next f' s1 off b is.has_inode is.inode refl (omega arith) is.synced moved
                last (omega arith) in
            read_loop-step n s t fi b b' off f is (omega arith) turn same.disk (
              read_loop-file_bytes n t fi f' (off + 1) b'
                (record {
                  file = ap (λ l. get_elem? l fi) same.open_files ∙ placed;
                  has_inode = is.has_inode;
                  inode = ap (λ l. get_elem? l k) same.icache ∙ is.inode;
                  at_off = refl;
                  synced = v;
                  holds = holds;
                })
                (omega arith) (omega arith))
        | no inside ↦
            let (turn, holds) = turn_page-stay f' s1 off b moved inside in
            read_loop-step n s s1 fi b b off f is (omega arith) turn refl (
              read_loop-file_bytes n s1 fi f' (off + 1) b
                (record {
                  file = placed;
                  has_inode = is.has_inode;
                  inode = is.inode;
                  at_off = refl;
                  synced = is.synced;
                  holds = holds;
                })
                (omega arith) (omega arith))
      ]
