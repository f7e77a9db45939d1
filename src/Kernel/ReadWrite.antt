-- ===== src/Kernel/ReadWrite.antt =====
-- kernel/fs/read_write.c: `read`, `write` and `seek` on an open file, and the permission tests.
-- A local variable that is used before it is set is an argument: the value it happens to hold.
pub mod Seek
pub mod Flags
pub mod Sys
pub mod Read
pub mod Write
use yaup.Base.{
  ℕ, zero, suc, ◌+◌, ◌-◌, ◌*◌, ◌/◌, ◌%◌, ◌^◌, Bool, true, false, not, ◌&&◌, ◌||◌, Option, none,
  some, List, [], ◌∷◌, length, bit_and, String, if◌then◌else◌, ◌==◌, leb, ltb, get_elem?, set, Cmd,
  ◌>>=◌, ◌>>◌, pure, panics, faults, deref, gets, panic_if, or_panic, ok, ℤ, pos, negsuc, at_least,
}
use yaup.Kernel.Host.{
  Host, Kernel, Buffer, File, Inode, Proc, acquire, release, current_lock, nr_ofiles, blk_sz,
  ndirect,
}
use yaup.Kernel.Inodes.{inode_at}
use yaup.Kernel.Block.{lock_call, buffer_at, set_buffer, bread, brelease, balloc}

-- fs.h
abbrev pub fread : ℕ
fread = 1

abbrev pub fwrt : ℕ
fwrt = 2

-- SEEK_SET, SEEK_CUR and SEEK_END of stdio.h
abbrev pub seek_set : ℕ
seek_set = 0

abbrev pub seek_cur : ℕ
seek_cur = 1

abbrev pub seek_end : ℕ
seek_end = 2

-- `off_t` is unsigned.
abbrev pub add_off : ℕ → ℕ → ℕ
add_off a b = (a + b) % 2 ^ 64

abbrev pub sub_off : ℕ → ℕ → ℕ
sub_off a b = (a + 2 ^ 64 - b) % 2 ^ 64

-- `(mode & mask) != 0 || (mode & perm) != 0`
unfoldable pub has_bits : ℕ → ℕ → ℕ → Bool
has_bits mode mask perm = not (bit_and mode mask == 0) || not (bit_and mode perm == 0)

unfoldable pub user_has_perm : Proc → Inode → ℕ → Bool
user_has_perm p i perm = p.p_uid == i.core.i_uid && has_bits i.core.i_mode 0o700 perm

unfoldable pub group_has_perm : Proc → Inode → ℕ → Bool
group_has_perm p i perm = p.p_gid == i.core.i_gid && has_bits i.core.i_mode 0o070 perm

unfoldable pub other_has_perm : Inode → ℕ → Bool
other_has_perm i perm = has_bits i.core.i_mode 0o007 perm

-- The three tests of `sys_read` and `sys_write`, with the bits for user, group and others.
unfoldable pub permitted : Proc → Inode → ℕ → ℕ → ℕ → Bool
permitted p i u g o = user_has_perm p i u || group_has_perm p i g || other_has_perm i o

-- The offset that a reference position gives; `none` is the `default` of the switch.
unfoldable pub seek_target : ℕ → ℕ → ℕ → Option ℕ
seek_target off offset whence =
    if whence == seek_cur
    then some (add_off off offset)
    else if whence == seek_end
    then some (sub_off off offset)
    else if whence == seek_set
    then some offset
    else none

-- The size of the buffer is cut so that the read does not pass the end of the file.
unfoldable pub clip : ℕ → ℕ → ℕ → ℕ
clip off size buffsize = if leb size (add_off off buffsize) then sub_off size off else buffsize

-- `f->f_flag & FREAD == 0`, where `==` binds tighter than `&`.
unfoldable pub flag_refused : File → ℕ → Bool
flag_refused f flag = not (bit_and f.f_flag (if flag == 0 then 1 else 0) == 0)

module _ (h : Host) where
  abbrev pub file_at : ℕ → Cmd (Kernel h) File
  file_at i s = deref (get_elem? s.open_files i) s

  abbrev pub set_file : ℕ → File → Cmd (Kernel h) (Unit {0})
  set_file i f s = ok (tt, record s { open_files = set s.open_files i f })

  -- `current->p_filp[fd]`; an index outside the array is a fault.
  abbrev pub filp_at : Proc → ℤ → Cmd (Kernel h) (Option ℕ)
  filp_at p (pos fd) = deref (get_elem? p.p_filp fd)
  filp_at p (negsuc fd) = faults

  -- `f->f_inode->…`
  abbrev pub inode_of : File → Cmd (Kernel h) Inode
  inode_of f = do i ← deref f.f_inode; inode_at h i

  -- `addr` is an `int`: the low 32 bits of the quotient.
  unfoldable pub baddr : File → Cmd (Kernel h) ℕ
  baddr f =
      let addr = f.f_off / blk_sz % 2 ^ 32 in
      if leb (2 ^ 31) addr
      then faults
      else if ltb ndirect addr
      then pure (2 ^ 64 - 1)
      else (do i ← inode_of f; deref (get_elem? i.core.i_addr addr))

  -- The head of `sys_read`, `sys_write` and `sys_seek`: the file behind a descriptor.
  abbrev pub open_file :
      String → String → String → ℤ → (Proc → Cmd (Kernel h) (Unit {0})) → Cmd (Kernel h) ℕ
  open_file bad_fd no_task no_file fd check = do
    panic_if (at_least nr_ofiles fd) bad_fd
    c ← gets (λ s. s.current)
    p ← or_panic c no_task
    lock_call h (acquire current_lock)
    entry ← filp_at p fd
    f ← or_panic entry no_file
    check p
    lock_call h (release current_lock)
    pure f

  unfoldable pub sys_seek : ℤ → ℕ → ℕ → Cmd (Kernel h) ℕ
  sys_seek fd offset whence = do
    fi ←
        open_file "sys_seek: bad fd" "sys_seek: cannot get current task" "sys_seek: invalid fd" fd
          (λ _. pure tt)
    f ← file_at fi
    off ← or_panic (seek_target f.f_off offset whence) "sys_seek: invalid reference position"
    panic_if (leb off 0) "sys_seek: bad offset"
    i ← inode_of f
    panic_if (leb i.core.i_size off) "sys_seek: bad offset"
    set_file fi (record f { f_off = off })
    pure off

  -- `f->f_off++`
  abbrev pub advance : ℕ → Cmd (Kernel h) File
  advance fi = do
    f ← file_at fi
    let f' = record f { f_off = add_off f.f_off 1 }
    set_file fi f'
    pure f'

  -- The block at the file's cursor, and the index in it.
  unfoldable pub next_block : File → Cmd (Kernel h) (ℕ × ℕ)
  next_block f = do i ← inode_of f; a ← baddr f; b ← bread h i.i_dev a; pure (b, f.f_off % blk_sz)

  -- At the end of a block, `sys_read` goes on to the next one.
  unfoldable pub turn_page : ℕ → File → ℕ → Cmd (Kernel h) (ℕ × ℕ)
  turn_page b f i = if i + 1 == blk_sz then (do brelease h b; next_block f) else pure (b, i + 1)

  -- `while (count < buffsize)` of `sys_read` with `n` bytes to go: the bytes put in `buf`.
  unfoldable pub read_loop : ℕ → ℕ → ℕ → ℕ → Cmd (Kernel h) (List ℕ)
  read_loop zero fi b i = pure []
  read_loop (suc n) fi b i = do
    c ← buffer_at h b
    v ← deref (get_elem? c.b_data i)
    f ← advance fi
    (b', i') ← turn_page b f i
    rest ← read_loop n fi b' i'
    pure (v ∷ rest)

  -- The permission tests read the inode through `i`, which nothing has set.
  abbrev pub check_perm : Option ℕ → (ℕ × ℕ × ℕ) → String → Proc → Cmd (Kernel h) (Unit {0})
  check_perm i0 (u, g, o) m p = do
    k ← deref i0
    i ← inode_at h k
    panic_if (not (permitted p i u g o)) m

  -- `f0` and `i0` are the unset `f` and `i`. The result is the bytes put in `buf`, of which the
  -- code returns the number.
  unfoldable pub sys_read : Option ℕ → Option ℕ → ℤ → ℕ → Cmd (Kernel h) (List ℕ)
  sys_read f0 i0 fd buffsize = do
    k ← deref f0
    g ← file_at k
    gi ← inode_of g
    let n = clip g.f_off gi.core.i_size buffsize
    fi ←
        open_file "sys_read: invalid fd" "sys_read: cannot get current task" "sys_read: invalid fd"
          fd (check_perm i0 (0o400, 0o040, 0o004) "sys_read: cannot read file (permission denied)")
    f ← file_at fi
    panic_if (flag_refused f fread) "sys_write: non readable file"
    (b, i) ← next_block f
    read_loop n fi b i

  -- The block is full: it is marked dirty, given back, and a new one is allocated.
  unfoldable pub refill : ℕ → File → ℕ → Cmd (Kernel h) (ℕ × ℕ)
  refill fuel f b = do
    c ← buffer_at h b
    set_buffer h b (record c { b_dirty = 1 })
    brelease h b
    i ← inode_of f
    new ← balloc h fuel i.i_dev
    b' ← deref new
    pure (b', f.f_off % blk_sz)

  -- `while (count < buffsize)` of `sys_write` over the bytes to go.
  unfoldable pub write_loop : ℕ → List ℕ → ℕ → ℕ → ℕ → Cmd (Kernel h) (Unit {0})
  write_loop fuel [] fi b i = pure tt
  write_loop fuel (v ∷ rest) fi b i = do
    c ← buffer_at h b
    deref (get_elem? c.b_data i)
    set_buffer h b (record c { b_data = set c.b_data i v })
    f ← advance fi
    (b', i') ← if i + 1 == blk_sz then refill fuel f b else pure (b, i + 1)
    write_loop fuel rest fi b' i'

  unfoldable pub sys_write : ℕ → Option ℕ → ℤ → List ℕ → Cmd (Kernel h) ℕ
  sys_write fuel i0 fd buf = do
    fi ←
        open_file "sys_write: bad fd" "sys_write: cannot get current task" "sys_write: bad fd" fd
          (check_perm i0 (0o200, 0o020, 0o002) "sys_read: cannot write file (permission denied)")
    f ← file_at fi
    panic_if (flag_refused f fwrt) "sys_write: non writeable file"
    (b, i) ← next_block f
    write_loop fuel buf fi b i
    pure (length buf)
