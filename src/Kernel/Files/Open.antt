-- ===== src/Kernel/Files/Open.antt =====
-- `fget`, `sys_open` and `sys_close`.
use yaup.Base.{
  ℕ, ◌+◌, ◌-◌, ◌%◌, ◌<◌, ◌≡◌, none, some, List, ◌∷◌, arith, get_elem?, set, ok, fault, pos,
}
use yaup.Errno.{einprogress}
use yaup.Kernel.Host.{Host, Kernel, Proc, File, Inode, acquire, release, open_files_lock, nr_ofiles}
use yaup.Kernel.Files.{fget_scan, fget, sys_open, sys_close, install}

-- If the first entry of the table of open files has a null inode, as one that was never opened has,
-- `fget` faults.
pub fget-null_entry :
    (h : Host) (s : Kernel h) (k flags : ℕ) (i : Inode) (f : File) (fs : List File)
    → get_elem? s.icache k ≡ some i
    → s.open_files ≡ f ∷ fs
    → f.f_inode ≡ none
    → fget h k flags s ≡ fault
unfolding fget fget_scan
fget-null_entry h s k flags i f fs g e null = ground arith

-- Whenever `sys_open` returns, it returns EINPROGRESS, whatever the path and the flags.
pub sys_open-einprogress :
    (h : Host) (s t : Kernel h) (path : List ℕ) (flags r : ℕ)
    → sys_open h path flags s ≡ ok (r, t)
    → r ≡ einprogress
unfolding sys_open install
sys_open-einprogress h s t path flags r e = ground arith

module _ (h : Host) (s : Kernel h) (fd fi : ℕ) (p : Proc) (f : File) (run : s.current ≡ some p)
    (small : fd < nr_ofiles) (entry : get_elem? p.p_filp fd ≡ some (some fi))
    (file : get_elem? s.open_files fi ≡ some f) where
  -- `sys_close` on a file with other users takes one user from it and returns 0; the process keeps
  -- its descriptor.
  pub sys_close-shared :
      1 < f.f_count
      → f.f_count < 256
      → sys_close h (pos fd) s
        ≡ ok (
          0,
          record s {
            open_files = set s.open_files fi (record f { f_count = f.f_count - 1 });
            calls = release open_files_lock ∷ acquire open_files_lock ∷ s.calls;
          },
        )
  unfolding sys_close
  sys_close-shared many byte =
      let e : (f.f_count + 255) % 256 ≡ f.f_count - 1 = omega arith in ground arith
