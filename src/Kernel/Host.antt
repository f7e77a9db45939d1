-- ===== src/Kernel/Host.antt =====
-- The data of kernel/include (param.h, fs.h, sched.h), and what the file system uses of code that
-- the repository does not hold: the disk driver, the locks and the layout of the C structures.
use yaup.Base.{ℕ, ◌≡◌, ◌≢◌, ◌⊎◌, Bool, Option, List, length}

-- param.h
abbrev pub nr_ofiles : ℕ
nr_ofiles = 128

abbrev pub blk_sz : ℕ
blk_sz = 4096

abbrev pub ndirect : ℕ
ndirect = 9

-- `blk_t i_addr[8]` of fs.h
abbrev pub addr_len : ℕ
addr_len = 8

-- `struct d_inode`
pub record DInode : Type 0 where
  pub i_mode : ℕ
  pub i_nlink : ℕ
  pub i_uid : ℕ
  pub i_gid : ℕ
  pub i_size : ℕ
  pub i_addr : List ℕ
  pub i_ctime : ℕ
  pub i_atime : ℕ
  pub i_mtime : ℕ

-- `struct inode`. It begins with the fields of `struct d_inode` in the same order: `core`.
pub record Inode : Type 0 where
  pub core : DInode
  pub i_num : ℕ
  pub i_dev : ℕ
  pub i_flag : ℕ
  pub i_count : ℕ

-- `struct buffer`
pub record Buffer : Type 0 where
  pub b_data : List ℕ
  pub b_dev : ℕ
  pub b_blk : ℕ
  pub b_dirty : ℕ
  pub b_count : ℕ

-- `struct file`. A `struct inode *` is the index of the inode in `icache.inodes`; `none` is NULL.
pub record File : Type 0 where
  pub f_mode : ℕ
  pub f_flag : ℕ
  pub f_count : ℕ
  pub f_off : ℕ
  pub f_inode : Option ℕ

-- `struct superblock`
pub record Superblock : Type 0 where
  pub s_magic : ℕ
  pub s_dev : ℕ
  pub s_size : ℕ
  pub s_ino_table : ℕ
  pub s_ino_len : ℕ
  pub s_free_blk : ℕ
  pub s_free_blk_len : ℕ
  pub s_free_ino : ℕ
  pub s_free_ino_len : ℕ
  pub s_flag : ℕ
  pub s_mtime : ℕ
  pub s_ctime : ℕ
  pub s_atime : ℕ
  pub s_mpoint : List ℕ

-- `struct dirent`
pub record Dirent : Type 0 where
  pub d_inode : ℕ
  pub name : List ℕ

-- `struct stat`
pub record Stat : Type 0 where
  pub st_dev : ℕ
  pub st_ino : ℕ
  pub st_mode : ℕ
  pub st_nlink : ℕ
  pub st_uid : ℕ
  pub st_gid : ℕ
  pub st_rdev : ℕ
  pub st_size : ℕ
  pub st_blksize : ℕ
  pub st_blocks : ℕ
  pub st_atim : ℕ
  pub st_mtim : ℕ
  pub st_ctim : ℕ

-- The fields of `struct proc` that the file system reads. A `struct file *` is the index of the
-- file in `open_files.files`.
pub record Proc : Type 0 where
  pub p_uid : ℕ
  pub p_gid : ℕ
  pub p_cwd : Option ℕ
  pub p_filp : List (Option ℕ)

-- The locks of the tables, and of the entry of a table at an index.
pub data Lock : Type 0 where
  mtable_lock icache_lock buffer_lock open_files_lock proc_table_lock current_lock : Lock
  buffer_entry inode_entry file_entry : ℕ → Lock

-- locks.h takes a `struct spinlock` by value. A call is recorded, the latest first.
pub data LockCall : Type 0 where
  initlock acquire release : Lock → LockCall

-- What the file system calls and the repository does not implement.
pub record Host : Type 1 where
  pub Disk : Type 0
  -- the block that `disk_read` copies to `b_data`: disk, device, block
  pub read_block : Disk → ℕ → ℕ → List ℕ
  -- the disk after `disk_write`: disk, device, block, bytes
  pub write_block : Disk → ℕ → ℕ → List ℕ → Disk
  -- `holdingsleep` after the calls so far
  pub holdingsleep : List LockCall → Lock → Bool
  -- `sizeof(struct d_inode)`, and the structure and its bytes
  pub inode_size : ℕ
  pub inode_of_bytes : List ℕ → DInode
  pub bytes_of_inode : DInode → List ℕ
  -- `sizeof(struct dirent)`, and the structure at the head of the bytes
  pub dirent_size : ℕ
  pub dirent_of_bytes : List ℕ → Dirent
  pub superblock_of_bytes : List ℕ → Superblock

-- The documented behaviour of a disk, and the size of an object's representation.
pub record IsLawful (h : Host) : Type 0 where
  pub read_self :
      (d : h.Disk) (dev blk : ℕ) (bytes : List ℕ)
      → length bytes ≡ blk_sz
      → h.read_block (h.write_block d dev blk bytes) dev blk ≡ bytes
  pub read_other :
      (d : h.Disk) (dev blk dev' blk' : ℕ) (bytes : List ℕ)
      → (dev ≢ dev') ⊎ (blk ≢ blk')
      → h.read_block (h.write_block d dev blk bytes) dev' blk' ≡ h.read_block d dev' blk'
  pub length_read : (d : h.Disk) (dev blk : ℕ) → length (h.read_block d dev blk) ≡ blk_sz
  pub length_inode : (i : DInode) → length (h.bytes_of_inode i) ≡ h.inode_size

-- The tables of fs.h, the process that `current_task()` points to (`none` is NULL), the disk and
-- the calls of the lock functions so far.
pub record Kernel (h : Host) : Type 0 where
  pub mtable : List Superblock
  pub icache : List Inode
  pub buffers : List Buffer
  pub open_files : List File
  pub current : Option Proc
  pub disk : h.Disk
  pub calls : List LockCall
