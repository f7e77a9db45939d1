-- ===== src/Kernel/ReadWrite/Write.antt =====
-- `sys_write` of bytes that end within the block of the cursor.
use yaup.Base.{
  ℕ, suc, ◌+◌, ◌%◌, ◌^◌, ◌<◌, ◌≤◌, ◌≡◌, sym, ap, ◌∙◌, true, some, List, [], ◌∷◌, ◌++◌, arith,
  length, take, drop, get_elem?, set, get_elem?-set_self, set-get_elem?, set-set, length-set,
  append_assoc, ok, pos,
}
use yaup.Base.Sublists.{get_elem?_inside, take-set_next, take-append_drop, drop-set_before}
use yaup.Kernel.Host.{
  Host, Kernel, File, Inode, Proc, Buffer, IsLawful, acquire, release, current_lock, blk_sz,
  addr_len,
}
use yaup.Kernel.Block.Synced.{IsSynced, spare, Holds-data, bread-Holds}
use yaup.Kernel.Inodes.Iput.{IsClean, bread-IsClean}
use yaup.Kernel.ReadWrite.{sys_write, write_loop, next_block, permitted}
use yaup.Kernel.ReadWrite.Seek.{IsOpen}
use yaup.Kernel.ReadWrite.Read.{direct_size, block_of, baddr-block_of}
use yaup.Kernel.ReadWrite.Flags.{flag-ignored}

-- `bytes` in the place of what `was` has from `i` on.
abbrev pub splice : List ℕ → ℕ → List ℕ → List ℕ
splice was i bytes = take i was ++ (bytes ++ drop (i + length bytes) was)

-- The same, a byte at a time.
write_at : List ℕ → ℕ → List ℕ → List ℕ
write_at was i [] = was
write_at was i (v ∷ vs) = write_at (set was i v) (i + 1) vs

write_at-splice :
    (was : List ℕ) (i : ℕ) (bytes : List ℕ)
    → i + length bytes ≤ length was
    → write_at was i bytes ≡ splice was i bytes
unfolding write_at
write_at-splice was i [] le =
    sym (ap (λ n. take i was ++ drop n was) (omega arith) ∙ take-append_drop i was)
write_at-splice was i (v ∷ vs) le =
    let end : (i + 1) + length vs ≡ i + length (v ∷ vs) = omega arith in
    let next : i + 1 ≡ suc i = omega arith in
    let rest = vs ++ drop (i + length (v ∷ vs)) was in
    write_at-splice (set was i v) (i + 1) vs (omega (arith, length-set was i v))
    ∙ ap (λ n. take (i + 1) (set was i v) ++ (vs ++ drop n (set was i v))) end
    ∙ ap (λ d. take (i + 1) (set was i v) ++ (vs ++ d))
        (drop-set_before (i + length (v ∷ vs)) i was v (omega arith))
    ∙ ap (λ t. t ++ rest)
        (ap (λ n. take n (set was i v)) next ∙ take-set_next i was v (omega arith))
    ∙ append_assoc (take i was) (v ∷ []) rest

module _ (h : Host) (fuel fi b : ℕ) where
  write_loop-within :
      (bytes : List ℕ) (s : Kernel h) (f : File) (c : Buffer) (i : ℕ)
      → get_elem? s.open_files fi ≡ some f
      → get_elem? s.buffers b ≡ some c
      → length c.b_data ≡ blk_sz
      → i + length bytes < blk_sz
      → f.f_off + length bytes < 2 ^ 63
      → write_loop h fuel bytes fi b i s
        ≡ ok (
          tt,
          record s {
            buffers = set s.buffers b (record c { b_data = write_at c.b_data i bytes });
            open_files = set s.open_files fi (record f { f_off = f.f_off + length bytes });
          },
        )
  unfolding write_loop write_at
  write_loop-within [] s f c i gf gc len lt small =
      let here : f.f_off + 0 ≡ f.f_off = omega arith in
      ground (arith, set-get_elem? s.buffers b gc, set-get_elem? s.open_files fi gf, here)
  write_loop-within (v ∷ vs) s f c i gf gc len lt small =
      let c1 : Buffer = record c { b_data = set c.b_data i v } in
      let f1 : File = record f { f_off = f.f_off + 1 } in
      let s1 : Kernel h = record s {
        buffers = set s.buffers b c1;
        open_files = set s.open_files fi f1;
      } in
      let (old, g) = get_elem?_inside c.b_data i (omega arith) in
      let rest =
        write_loop-within vs s1 f1 c1 (i + 1) (get_elem?-set_self s.open_files fi f1 gf)
          (get_elem?-set_self s.buffers b c1 gc) (length-set c.b_data i v ∙ len) (omega arith)
          (omega arith) in
      let moved : (f.f_off + 1) + length vs ≡ f.f_off + length (v ∷ vs) = omega arith in
      ground (
        arith,
        gf,
        gc,
        g,
        rest,
        set-set s.buffers b c1 (record c { b_data = write_at c1.b_data (i + 1) vs }),
        set-set s.open_files fi f1 (record f { f_off = f.f_off + length (v ∷ vs) }),
        moved,
      )

module _ (h : Host) (s : Kernel h) (fd fi : ℕ) (p : Proc) (f : File) (k : ℕ) (i : Inode)
    (o : IsOpen s fd fi p f k i) (fuel : ℕ) (bytes : List ℕ) where
  -- `sys_write` of bytes that end within the block of the cursor returns their number, moves the
  -- cursor past them and puts them in the block's buffer, whether or not the file was opened for
  -- writing. The buffer is not marked as dirty and the
  -- disk is unchanged. The class bits allow the write, the cursor is in a direct block, every
  -- buffer in use equals its block of the disk, the cache has an unused buffer and no dirty one,
  -- and the variable that is used before it is set equals the inode.
  pub sys_write-splice :
      IsLawful h
      → IsSynced s
      → IsClean s
      → length i.core.i_addr ≡ addr_len
      → permitted p i 0o200 0o020 0o002 ≡ true
      → f.f_off < direct_size
      → f.f_off % blk_sz + length bytes < blk_sz
      → 0 < spare s
      → let dev = i.i_dev in
        let blk = block_of i f.f_off in
        (t : Kernel h) × (b : ℕ) × (c : Buffer) × (sys_write h fuel (some k) (pos fd) bytes s
          ≡ ok (length bytes, t))
        × (get_elem? t.open_files fi ≡ some (record f { f_off = f.f_off + length bytes }))
        × (get_elem? t.buffers b ≡ some c)
        × (c.b_dev ≡ dev)
        × (c.b_blk ≡ blk)
        × (c.b_data ≡ splice (h.read_block s.disk dev blk) (f.f_off % blk_sz) bytes)
        × (c.b_dirty ≡ 0)
        × (t.disk ≡ s.disk)
  unfolding sys_write next_block
  sys_write-splice law v clean full perm small fits room =
      let dev = i.i_dev in
      let blk = block_of i f.f_off in
      let s1 : Kernel h = record s {
        calls = release current_lock ∷ acquire current_lock ∷ s.calls;
      } in
      let (b, t, r, holds, v', sp, same) = bread-Holds h dev blk s1 v room in
      let at = f.f_off % blk_sz in
      let c = holds.buffer in
      let bytes_of : c.b_data ≡ h.read_block s.disk dev blk =
        Holds-data h t dev blk b v' holds ∙ ap (λ d. h.read_block d dev blk) same.disk in
      let len : length c.b_data ≡ blk_sz = ap length bytes_of ∙ law.length_read s.disk dev blk in
      let file : get_elem? t.open_files fi ≡ some f =
        ap (λ l. get_elem? l fi) same.open_files ∙ o.file in
      let loop =
        write_loop-within h fuel fi b bytes t f c at file holds.found len fits (omega arith) in
      let c1 : Buffer = record c { b_data = write_at c.b_data at bytes } in
      let f1 : File = record f { f_off = f.f_off + length bytes } in
      (
        record t { buffers = set t.buffers b c1; open_files = set t.open_files fi f1 },
        b,
        c1,
        ground (
          arith,
          o.fd_small,
          o.running,
          o.entry,
          o.file,
          o.has_inode,
          o.inode,
          perm,
          flag-ignored f 1,
          baddr-block_of h law k i full f s1 o.has_inode o.inode small,
          r,
          loop,
        ),
        get_elem?-set_self t.open_files fi f1 file,
        get_elem?-set_self t.buffers b c1 holds.found,
        holds.dev_named,
        holds.blk_named,
        write_at-splice c.b_data at bytes (omega arith) ∙ ap (λ d. splice d at bytes) bytes_of,
        bread-IsClean h dev blk s1 t b clean r b c holds.found,
        same.disk,
      )
