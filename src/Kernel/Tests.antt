-- ===== src/Kernel/Tests.antt =====
-- The theorems on the file system at a small system.
use yaup.Base.{
  ◌^◌, ◌-◌, panic, ℕ, zero, suc, ◌≡◌, ◌≢◌, ◌⊎◌, refl, some, [], ◌∷◌, arith, get_elem?, find_index,
  ok, pos,
}
use yaup.Kernel.Host.{Kernel, File, Inode, Buffer, acquire, release, current_lock}
use yaup.Kernel.Sample.{
  host, host-IsLawful, system, cached, spare_buffer, opened, proc0, file_inode, root, disk0,
  read_fit, fit,
}
use yaup.Kernel.Sample.Facts.{system-IsSynced, system-IsOpen}
use yaup.Kernel.Block.{bread, bwrite, caches, unused}
use yaup.Kernel.Block.Bread.{slot}
use yaup.Kernel.Block.Cache.{IsUnique, IsCoherent, bread-IsUnique, bread-IsCoherent}
use yaup.Kernel.Block.Write.{bwrite-keeps}
use yaup.Kernel.ReadWrite.{
  sys_read, sys_seek, permitted, user_has_perm, group_has_perm, other_has_perm, has_bits,
}
use yaup.Kernel.ReadWrite.Seek.{IsOpen, sys_seek-moved_to}
use yaup.Kernel.ReadWrite.Read.{file_bytes, file_byte}
use yaup.Kernel.ReadWrite.Sys.{sys_read-file_bytes}

pair-IsUnique : IsUnique (cached ∷ spare_buffer ∷ [])
pair-IsUnique zero zero b c g k ed eb nz = refl
pair-IsUnique zero (suc zero) b c g k ed eb nz = ground arith
pair-IsUnique zero (suc (suc j)) b c g k ed eb nz = ground arith
pair-IsUnique (suc zero) zero b c g k ed eb nz = ground arith
pair-IsUnique (suc zero) (suc zero) b c g k ed eb nz = refl
pair-IsUnique (suc zero) (suc (suc j)) b c g k ed eb nz = ground arith
pair-IsUnique (suc (suc i)) j b c g k ed eb nz = ground arith

system-IsCoherent : IsCoherent system
system-IsCoherent i b g nz clean = system-IsSynced i b g nz

slot12 : slot 0 12 (cached ∷ spare_buffer ∷ []) ≡ some 0
unfolding slot find_index caches
slot12 = refl

slot13 : slot 0 13 (cached ∷ spare_buffer ∷ []) ≡ some 1
unfolding slot find_index caches unused
slot13 = refl

bread-IsUnique_example :
    (t : Kernel host) × (bread host 0 13 system ≡ ok (1, t)) × IsUnique t.buffers
bread-IsUnique_example = bread-IsUnique host 0 13 system 1 pair-IsUnique slot13

bread-IsCoherent_example : (t : Kernel host) × (bread host 0 13 system ≡ ok (1, t)) × IsCoherent t
bread-IsCoherent_example = bread-IsCoherent host 0 13 system 1 system-IsCoherent slot13

sys_read-file_bytes_example :
    (t : Kernel host) × (f : File) × (sys_read host (some 0) (some 1) (pos 3) 100 system
      ≡ ok (8 ∷ 9 ∷ [], t))
    × (get_elem? t.open_files 0 ≡ some f)
    × (f.f_off ≡ 3)
    × (t.disk ≡ disk0)
unfolding unused permitted user_has_perm group_has_perm other_has_perm has_bits file_bytes file_byte
    disk0 read_fit fit
sys_read-file_bytes_example =
    sys_read-file_bytes host system 3 0 proc0 opened 1 file_inode system-IsOpen 100 host-IsLawful
      system-IsSynced refl refl (omega arith) (omega arith) (omega arith) (omega arith)

-- The file is writable by its owner and readable by all: with the last bits cleared and another
-- owner it is not.
abbrev closed_inode : Inode
closed_inode = record file_inode { core = record file_inode.core { i_mode = 0o100000 } }

abbrev closed_system : Kernel host
closed_system = record system { icache = root ∷ closed_inode ∷ [] }

closed-IsOpen : IsOpen closed_system 3 0 proc0 opened 1 closed_inode
closed-IsOpen = record {
  fd_small = omega arith;
  running = refl;
  entry = refl;
  file = refl;
  has_inode = refl;
  inode = refl;
}

abbrev moved : ℕ → Kernel host
moved off = record system {
  open_files = record opened { f_off = off } ∷ [];
  calls = release current_lock ∷ acquire current_lock ∷ [];
}

sys_seek-moved_to_example :
    (sys_seek host (pos 3) 1 1 system ≡ ok (2, moved 2))
    × (sys_seek host (pos 3) 1 2 system ≡ panic "sys_seek: bad offset")
    × (sys_seek host (pos 3) 1 0 system ≡ ok (1, moved 1))
    × (sys_seek host (pos 3) (2 ^ 64 - 1) 1 system ≡ sys_seek host (pos 3) 1 2 system)
    × (sys_seek host (pos 3) 1 7 system ≡ panic "sys_seek: invalid reference position")
sys_seek-moved_to_example =
    sys_seek-moved_to host system 3 0 proc0 opened 1 file_inode system-IsOpen 1 7 (omega arith)
      (omega arith) (omega arith) (omega arith) (omega arith)

abbrev dirty : Buffer
dirty = record cached { b_dirty = 1; b_count = 2 }

abbrev dirty_system : Kernel host
dirty_system = record system { buffers = dirty ∷ spare_buffer ∷ [] }

dirty-IsUnique : IsUnique (dirty ∷ spare_buffer ∷ [])
dirty-IsUnique zero zero b c g k ed eb nz = refl
dirty-IsUnique zero (suc zero) b c g k ed eb nz = ground arith
dirty-IsUnique zero (suc (suc j)) b c g k ed eb nz = ground arith
dirty-IsUnique (suc zero) zero b c g k ed eb nz = ground arith
dirty-IsUnique (suc zero) (suc zero) b c g k ed eb nz = refl
dirty-IsUnique (suc zero) (suc (suc j)) b c g k ed eb nz = ground arith
dirty-IsUnique (suc (suc i)) j b c g k ed eb nz = ground arith

dirty-IsCoherent : IsCoherent dirty_system
dirty-IsCoherent zero b g nz clean = ground arith
dirty-IsCoherent (suc zero) b g nz clean = ground arith
dirty-IsCoherent (suc (suc i)) b g nz clean = ground arith

bwrite-keeps_example :
    (t : Kernel host) × (bwrite host 0 dirty_system ≡ ok (0, t))
    × IsUnique t.buffers
    × IsCoherent t
    × (host.read_block t.disk 0 12 ≡ read_fit disk0 0 12)
    × ((dev blk : ℕ)
        → (0 ≢ dev) ⊎ (12 ≢ blk)
        → host.read_block t.disk dev blk ≡ host.read_block disk0 dev blk)
bwrite-keeps_example =
    bwrite-keeps host dirty_system 0 dirty host-IsLawful dirty-IsUnique dirty-IsCoherent refl
      (omega arith) (omega arith) (omega arith) (omega arith) (host-IsLawful.length_read disk0 0 12)
