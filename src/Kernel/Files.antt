-- ===== src/Kernel/Files.antt =====
-- kernel/fs/open_close.c: the table of open files and the descriptors of a process.
pub mod Fget
pub mod Open
pub mod Descriptors
use yaup.Base.{
  ℕ, zero, suc, ◌+◌, ◌-◌, ◌%◌, Bool, true, false, not, ◌&&◌, ◌||◌, Option, none, some, List, [],
  ◌∷◌, bit_and, if◌then◌else◌, ◌==◌, leb, ltb, get_elem?, set, Run, ok, fault, Cmd, ◌>>=◌, ◌>>◌,
  pure, panics, faults, gets, deref, lift, panic_if, or_panic, ℤ, pos, negsuc,
}
use yaup.Errno.{einprogress}
use yaup.Kernel.Host.{
  Host, Kernel, File, Inode, Proc, acquire, release, initlock, open_files_lock, proc_table_lock,
  current_lock, file_entry, nr_ofiles,
}
use yaup.Kernel.Block.{lock_call}
use yaup.Kernel.Inodes.{inode_at, iput}
use yaup.Kernel.Namei.{namei}
use yaup.Kernel.ReadWrite.{file_at, set_file}

-- IFMT and IFREG of fs.h
abbrev pub ifmt : ℕ
ifmt = 0o170000

abbrev pub ifreg : ℕ
ifreg = 0o100000

-- What the loop of `fget` ends with: a file of the inode, or the first unused entry, if any.
pub data Scan : Type 0 where
  found : ℕ → Scan
  vacant : Option ℕ → Scan

-- `else if (!empty && f->f_count == 0) empty = f;`
unfoldable pub first_empty : Option ℕ → File → ℕ → Option ℕ
first_empty (some e) f n = some e
first_empty none f n = if f.f_count == 0 then some n else none

-- The loop of `fget`, from entry `n` on. It reads `f->f_inode->i_num` of every entry.
unfoldable pub fget_scan : List Inode → ℕ → List File → ℕ → Option ℕ → Run Scan
fget_scan inodes num [] n empty = ok (vacant empty)
fget_scan inodes num (f ∷ fs) n empty =
    let rest = fget_scan inodes num fs (n + 1) (first_empty empty f n) in
    elim f.f_inode [
      | none ↦ fault
      | some k ↦ elim (get_elem? inodes k) [
        | none ↦ fault
        | some i ↦ if i.i_num == num then ok (found n) else rest
      ]
    ]

-- The loop of `fdget` with `n` descriptors to go.
unfoldable pub fdget_scan : List (Option ℕ) → ℕ → ℕ → Run (Option ℕ)
fdget_scan filp zero fd = ok none
fdget_scan filp (suc n) fd =
    let rest = fdget_scan filp n (fd + 1) in
    elim (get_elem? filp fd) [ none ↦ fault | some none ↦ ok (some fd) | some (some f) ↦ rest ]

module _ (h : Host) where
  -- `i` is the index of the inode that the pointer names.
  unfoldable pub fget : ℕ → ℕ → Cmd (Kernel h) (Option ℕ)
  fget k flags = do
    lock_call h (acquire open_files_lock)
    i ← inode_at h k
    inodes ← gets (λ s. s.icache)
    files ← gets (λ s. s.open_files)
    r ← lift (fget_scan inodes i.i_num files 0 none)
    elim r [
      | found n ↦ do
        f ← file_at h n
        set_file h n (record f { f_count = (f.f_count + 1) % 256 })
        lock_call h (release open_files_lock)
        pure (some n)
      | vacant none ↦ do lock_call h (release open_files_lock); pure none
      | vacant (some n) ↦ do
        f ← file_at h n
        set_file h n (record {
          f_mode = i.core.i_mode;
          f_flag = flags % 256;
          f_count = (f.f_count + 1) % 256;
          f_off = 0;
          f_inode = some k;
        })
        lock_call h (initlock (file_entry n))
        lock_call h (release open_files_lock)
        pure (some n)
    ]

  -- `none` is -1. Then the lock of the process table stays taken.
  unfoldable pub fdget : Cmd (Kernel h) (Option ℕ)
  fdget = do
    lock_call h (acquire proc_table_lock)
    c ← gets (λ s. s.current)
    p ← deref c
    r ← lift (fdget_scan p.p_filp (nr_ofiles - 3) 3)
    elim r [ some fd ↦ do lock_call h (release proc_table_lock); pure (some fd) | none ↦ pure none ]

  abbrev pub set_current : Proc → Cmd (Kernel h) (Unit {0})
  set_current p s = ok (tt, record s { current = some p })

  -- The part of `sys_open` after `fget`.
  unfoldable pub install : ℕ → ℕ → Cmd (Kernel h) ℕ
  install k fi = do
    r ← fdget
    elim r [
      | none ↦ do
        iput h k
        f ← file_at h fi
        set_file h fi (record f { f_count = (f.f_count + 255) % 256 })
        panics "sys_open: cannot get a valid fd"
      | some fd ↦ do
        c ← gets (λ s. s.current)
        p ← or_panic c "sys_open: cannot get current task"
        lock_call h (acquire current_lock)
        set_current (record p { p_filp = set p.p_filp fd (some fi) })
        lock_call h (release current_lock)
        pure einprogress
    ]

  -- `namei` panics where it finds nothing, so the test of its result never fails; `O_CREAT` opens an
  -- empty block, and `mode` is not used.
  unfoldable pub sys_open : List ℕ → ℕ → Cmd (Kernel h) ℕ
  sys_open path flags = do
    k ← namei h path
    i ← inode_at h k
    if bit_and i.core.i_mode ifmt == ifreg
        then (do
          r ← fget k flags
          elim r [
            | none ↦ do iput h k; panics "sys_open: cannot get file struct"
            | some fi ↦ install k fi
          ])
        else (do iput h k; panics "sys_open: this is not a regular file")

  -- The entry of the descriptor table is left as it is.
  unfoldable pub sys_close : ℤ → Cmd (Kernel h) ℕ
  sys_close (negsuc n) = panics "sys_close: bad fd"
  sys_close (pos fd) = do
    panic_if (ltb nr_ofiles fd) "sys_close: bad fd"
    c ← gets (λ s. s.current)
    p ← deref c
    entry ← deref (get_elem? p.p_filp fd)
    fi ← or_panic entry "sys_close: bad file table"
    lock_call h (acquire open_files_lock)
    f ← file_at h fi
    let n = (f.f_count + 255) % 256
    set_file h fi (record f { f_count = n })
    if n == 0
        then (do
          k ← deref f.f_inode
          iput h k
          set_file h fi (record { f_mode = 0; f_flag = 0; f_count = 0; f_off = 0; f_inode = none })
          lock_call h (release open_files_lock)
          pure 0)
        else (do lock_call h (release open_files_lock); pure 0)
