-- ===== src/Kernel/ReadWrite/Sys.antt =====
-- `sys_read` as a whole: what it returns, and when it refuses.
use yaup.Base.{
  ℕ, ◌+◌, ◌-◌, ◌%◌, ◌/◌, ◌^◌, ◌<◌, ◌≤◌, ◌≡◌, refl, ap, ◌∙◌, ◌∷◌, true, false, some, arith, min,
  length, get_elem?, ok, panic, pos,
}
use yaup.Kernel.Host.{
  Host, Kernel, File, Inode, Proc, IsLawful, acquire, release, current_lock, blk_sz, addr_len,
}
use yaup.Kernel.Block.Synced.{IsSynced, spare}
use yaup.Kernel.ReadWrite.{sys_read, clip, permitted}
use yaup.Kernel.ReadWrite.Seek.{IsOpen}
use yaup.Kernel.ReadWrite.Read.{file_bytes, direct_size, next_block-Holds, read_loop-file_bytes}
use yaup.Kernel.ReadWrite.Flags.{flag-ignored}

clip-min :
    (off size buffsize : ℕ)
    → off ≤ size
    → size < 2 ^ 63
    → buffsize < 2 ^ 63
    → clip off size buffsize ≡ min buffsize (size - off)
unfolding clip
clip-min off size buffsize le lt lt' = ground arith

module _ (h : Host) (s : Kernel h) (fd fi : ℕ) (p : Proc) (f : File) (k : ℕ) (i : Inode)
    (o : IsOpen s fd fi p f k i) (buffsize : ℕ) where
  -- `sys_read` panics when no class of permission bits allows the read, with the variables `f` and
  -- `i` that it uses before it sets them equal to the descriptor's file and inode.
  pub sys_read-denied :
      permitted p i 0o400 0o040 0o004 ≡ false
      → sys_read h (some fi) (some k) (pos fd) buffsize s
        ≡ panic "sys_read: cannot read file (permission denied)"
  unfolding sys_read
  sys_read-denied no_perm =
      ground (arith, o.fd_small, o.running, o.entry, o.file, o.has_inode, o.inode)

  -- `sys_read` of fewer than 2 ^ 63 bytes returns the bytes of the file from the cursor on, as many
  -- as asked for or as the file has left, moves the cursor past them and leaves the disk unchanged,
  -- whether or not the file was opened for reading. The class bits allow the read, the cursor is not
  -- past the file's end, the file is smaller than 8 * 4096 bytes, so that no read ends at the end of
  -- the eighth direct block, every buffer in use equals its block of the disk, there is an unused buffer for each
  -- block that is entered, and the variables that are used before they are set equal the
  -- descriptor's file and inode.
  pub sys_read-file_bytes :
      IsLawful h
      → IsSynced s
      → length i.core.i_addr ≡ addr_len
      → permitted p i 0o400 0o040 0o004 ≡ true
      → f.f_off ≤ i.core.i_size
      → i.core.i_size < direct_size
      → buffsize < 2 ^ 63
      → (f.f_off % blk_sz + min buffsize (i.core.i_size - f.f_off)) / blk_sz < spare s
      → let n = min buffsize (i.core.i_size - f.f_off) in
        (t : Kernel h) × (f' : File) × (sys_read h (some fi) (some k) (pos fd) buffsize s
          ≡ ok (file_bytes h s.disk i f.f_off n, t))
        × (get_elem? t.open_files fi ≡ some f')
        × (f'.f_off ≡ f.f_off + n)
        × (t.disk ≡ s.disk)
  unfolding sys_read
  sys_read-file_bytes law v full perm before small sz room =
      let s1 : Kernel h = record s {
        calls = release current_lock ∷ acquire current_lock ∷ s.calls;
      } in
      let n = min buffsize (i.core.i_size - f.f_off) in
      let (b, t, r, holds, v', sp, same) =
        next_block-Holds h law k i full f s1 o.has_inode o.inode (omega arith) v (omega arith) in
      let (u, f', r', g', at', in', d') =
        read_loop-file_bytes h law k i full n t fi f f.f_off b
          (record {
            file = ap (λ l. get_elem? l fi) same.open_files ∙ o.file;
            has_inode = o.has_inode;
            inode = ap (λ l. get_elem? l k) same.icache ∙ o.inode;
            at_off = refl;
            synced = v';
            holds = holds;
          })
          (omega arith) (omega arith) in
      (
        u,
        f',
        ground (
          arith,
          o.fd_small,
          o.running,
          o.entry,
          o.file,
          o.has_inode,
          o.inode,
          perm,
          flag-ignored f 0,
          r,
          r',
          same.disk,
          clip-min f.f_off i.core.i_size buffsize before (omega arith) sz,
        ),
        g',
        at',
        d' ∙ same.disk,
      )
