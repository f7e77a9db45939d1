-- ===== src/Kernel/TableTests.antt =====
-- The theorems on the inodes, the open files, the paths and the bitmaps at a small system.
use yaup.Base.{
  ℕ, ◌<◌, ◌≤◌, ◌≡◌, ◌⊎◌, refl, none, some, [], ◌∷◌, arith, get_elem?, find_index, ok, take, drop,
}
use yaup.Kernel.Host.{
  Kernel, File, Inode, Buffer, acquire, release, initlock, open_files_lock, file_entry,
  proc_table_lock, nr_ofiles,
}
use yaup.Kernel.Sample.{
  host, host-IsLawful, system, opened, proc0, file_inode, free_inode, root, root_superblock, disk0,
  pack,
}
use yaup.Kernel.Sample.Facts.{system-IsSynced, system-IsClean}
use yaup.Kernel.Memory.{copy_from}
use yaup.Kernel.Block.{unused}
use yaup.Kernel.Block.Synced.{IsSynced}
use yaup.Kernel.Inodes.{iget, iput, is_dirty, is_inode, unused_inode, blk_addr, blk_off}
use yaup.Kernel.Inodes.Iget.{iget-load}
use yaup.Kernel.Inodes.Iput.{iput-stored}
use yaup.Kernel.Files.{fget, fdget}
use yaup.Kernel.Files.Descriptors.{IsLowest, IsTaken, fdget_lem}
use yaup.Kernel.Files.Fget.{FgetOutcome, fget_lem}

-- Inode 7 is not cached. It is read from block 10 to entry 2 of the cache.
iget-load_example :
    let new : Inode = record {
      core = host.inode_of_bytes (take 16 (drop 7 (host.read_block disk0 0 10)));
      i_num = 7;
      i_dev = 0;
      i_flag = 0;
      i_count = 1;
    } in
    (t : Kernel host) × (iget host 0 7 system ≡ ok (2, t))
    × (t.icache ≡ root ∷ file_inode ∷ new ∷ [])
    × (t.disk ≡ disk0)
    × IsSynced t
unfolding find_index is_inode unused_inode unused blk_off blk_addr
iget-load_example =
    iget-load host 0 7 system 2 free_inode root_superblock host-IsLawful system-IsSynced
      (omega arith) refl refl refl refl (omega arith)

abbrev changed : Inode
changed = record file_inode { i_flag = 2 }

abbrev changed_system : Kernel host
changed_system = record system { icache = root ∷ changed ∷ [] }

iput-stored_example :
    (t : Kernel host) × (b : ℕ) × (c : Buffer) × (iput host 1 changed_system ≡ ok (0, t))
    × (get_elem? t.buffers b ≡ some c)
    × (c.b_dev ≡ 0)
    × (c.b_blk ≡ 10)
    × (copy_from c.b_data 5 16 ≡ ok (pack changed.core))
    × (t.disk ≡ disk0)
unfolding is_dirty unused blk_addr blk_off
iput-stored_example =
    iput-stored host 1 changed_system changed refl root_superblock host-IsLawful system-IsSynced
      system-IsClean (omega arith) refl refl (omega arith)

fdget_lem_example :
    ((fd : ℕ) × (fdget host system
        ≡ ok (
          some fd,
          record system { calls = release proc_table_lock ∷ acquire proc_table_lock ∷ [] },
        ))
      × IsLowest proc0.p_filp 3 fd
      × (fd < nr_ofiles))
    ⊎ (fdget host system ≡ ok (none, record system { calls = acquire proc_table_lock ∷ [] }))
      × ((j : ℕ) → 3 ≤ j → j < nr_ofiles → IsTaken proc0.p_filp j)
fdget_lem_example = fdget_lem host system proc0 refl refl

abbrev unused_entry : File
unused_entry = record opened { f_count = 0 }

abbrev two_files : Kernel host
two_files = record system {
  icache = record root { core = file_inode.core } ∷ file_inode ∷ [];
  open_files = opened ∷ unused_entry ∷ [];
}

-- The root's inode, number 2, is opened for the first time.
fget-two_files :
    fget host 0 1 two_files
    ≡ ok (
      some 1,
      record two_files {
        open_files =
            opened
            ∷ record { f_mode = 0o100644; f_flag = 1; f_count = 1; f_off = 0; f_inode = some 0 }
            ∷ [];
        calls = release open_files_lock ∷ initlock (file_entry 1) ∷ acquire open_files_lock ∷ [];
      },
    )
unfolding fget yaup.Kernel.Files.fget_scan yaup.Kernel.Files.first_empty
fget-two_files = refl

fget_lem_example : FgetOutcome host two_files 0 1 (record root { core = file_inode.core })
fget_lem_example = fget_lem host two_files 0 1 (record root { core = file_inode.core }) refl
