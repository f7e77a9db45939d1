-- ===== src/Kernel/ReadWrite/Seek.antt =====
-- `sys_seek` on an open file.
use yaup.Base.{
  Run, ◌+◌, ◌-◌, ◌^◌, ◌≤◌, ℕ, ◌<◌, ◌≡◌, ◌&&◌, some, ◌∷◌, arith, if◌then◌else◌, ltb, get_elem?, set,
  ok, panic, pos,
}
use yaup.Kernel.Host.{Host, Kernel, File, Inode, Proc, acquire, release, current_lock, nr_ofiles}
use yaup.Kernel.ReadWrite.{sys_seek, seek_target, seek_set, seek_cur, seek_end}

-- Descriptor `fd` of the current process is open on the file `fi`, whose inode is `i`.
pub record IsOpen {h : Host} (s : Kernel h) (fd fi : ℕ) (p : Proc) (f : File) (k : ℕ) (i : Inode)
    : Type 0 where
  pub fd_small : fd < nr_ofiles
  pub running : s.current ≡ some p
  pub entry : get_elem? p.p_filp fd ≡ some (some fi)
  pub file : get_elem? s.open_files fi ≡ some f
  pub has_inode : f.f_inode ≡ some k
  pub inode : get_elem? s.icache k ≡ some i

module _ (h : Host) (s : Kernel h) (fd fi : ℕ) (p : Proc) (f : File) (k : ℕ) (i : Inode)
    (o : IsOpen s fd fi p f k i) where
  -- The offset is stored and returned if it is strictly inside of the file.
  abbrev pub moved_to : ℕ → Run (ℕ × Kernel h)
  moved_to off =
      if ltb 0 off && ltb off i.core.i_size
      then ok (
        off,
        record s {
          open_files = set s.open_files fi (record f { f_off = off });
          calls = release current_lock ∷ acquire current_lock ∷ s.calls;
        },
      )
      else panic "sys_seek: bad offset"

  -- On an open file of less than 2 ^ 62 bytes whose cursor is not past its end, with a distance of
  -- less than 2 ^ 62 and not 0: SEEK_CUR moves on by the distance from the cursor, SEEK_END back by
  -- it from the cursor too, and SEEK_SET to it; SEEK_CUR with the distance negated is SEEK_END with
  -- it. Each stores and returns the new offset from the start of the file if it is strictly between
  -- 0 and the file's size, and else panics, also for a distance past the start. Any other reference
  -- is a panic.
  pub sys_seek-moved_to :
      (distance whence : ℕ)
      → f.f_off ≤ i.core.i_size
      → i.core.i_size < 2 ^ 62
      → 0 < distance
      → distance < 2 ^ 62
      → 2 < whence
      → (sys_seek h (pos fd) distance seek_cur s ≡ moved_to (f.f_off + distance))
        × (sys_seek h (pos fd) distance seek_end s ≡ moved_to (f.f_off - distance))
        × (sys_seek h (pos fd) distance seek_set s ≡ moved_to distance)
        × (sys_seek h (pos fd) (2 ^ 64 - distance) seek_cur s
            ≡ sys_seek h (pos fd) distance seek_end s)
        × (sys_seek h (pos fd) distance whence s ≡ panic "sys_seek: invalid reference position")
  unfolding sys_seek seek_target
  sys_seek-moved_to distance whence before small up near other = (
    ground (arith, o.fd_small, o.running, o.entry, o.file, o.has_inode, o.inode),
    ground (arith, o.fd_small, o.running, o.entry, o.file, o.has_inode, o.inode),
    ground (arith, o.fd_small, o.running, o.entry, o.file, o.has_inode, o.inode),
    ground (arith, o.fd_small, o.running, o.entry, o.file, o.has_inode, o.inode),
    ground (arith, o.fd_small, o.running, o.entry, o.file, o.has_inode, o.inode),
  )
