-- ===== src/Kernel/Sample.antt =====
-- A disk driver, locks and layouts that meet the assumptions, and a small system for the tests.
pub mod Facts
use yaup.Base.{
  ℕ, zero, suc, ◌≡◌, refl, ap, ◌≢◌, ◌⊎◌, inl, inr, true, ◌&&◌, none, some, List, [], ◌∷◌, ◌++◌,
  arith, if◌then◌else◌, ◌==◌, ==_ne, ==_refl, length, length-append, get_or, replicate,
}
use yaup.Kernel.Host.{
  Host, IsLawful, Kernel, DInode, Inode, Buffer, File, Superblock, Proc, blk_sz, addr_len,
}

-- The first `n` of the numbers, and zeros behind them.
unfoldable pub fit : ℕ → List ℕ → List ℕ
fit zero xs = []
fit (suc n) [] = 0 ∷ fit n []
fit (suc n) (x ∷ xs) = x ∷ fit n xs

length-fit : (n : ℕ) (xs : List ℕ) → length (fit n xs) ≡ n
unfolding fit
length-fit zero xs = refl
length-fit (suc n) [] = ap suc (length-fit n [])
length-fit (suc n) (x ∷ xs) = ap suc (length-fit n xs)

fit_lem : (n : ℕ) (xs : List ℕ) → length xs ≡ n → fit n xs ≡ xs
unfolding fit
fit_lem zero [] e = refl
fit_lem zero (x ∷ xs) e = absurd (omega arith)
fit_lem (suc n) [] e = absurd (omega arith)
fit_lem (suc n) (x ∷ xs) e = ap (λ r. x ∷ r) (fit_lem n xs (omega arith))

abbrev Blocks : Type 0
Blocks = ℕ → ℕ → List ℕ

unfoldable pub blank : Blocks
blank dev blk = []

-- An inode in 16 numbers, one for each field.
unfoldable pub pack : DInode → List ℕ
pack i =
    i.i_mode
    ∷ i.i_nlink
    ∷ i.i_uid
    ∷ i.i_gid
    ∷ i.i_size
    ∷ (fit addr_len i.i_addr ++ (i.i_ctime ∷ i.i_atime ∷ i.i_mtime ∷ []))

unfoldable pub unpack : List ℕ → DInode
unpack b = record {
  i_mode = get_or b 0 0;
  i_nlink = get_or b 1 0;
  i_uid = get_or b 2 0;
  i_gid = get_or b 3 0;
  i_size = get_or b 4 0;
  i_addr =
      get_or b 5 0
      ∷ get_or b 6 0
      ∷ get_or b 7 0
      ∷ get_or b 8 0
      ∷ get_or b 9 0
      ∷ get_or b 10 0
      ∷ get_or b 11 0
      ∷ get_or b 12 0
      ∷ [];
  i_ctime = get_or b 13 0;
  i_atime = get_or b 14 0;
  i_mtime = get_or b 15 0;
}

abbrev pub root_superblock : Superblock
root_superblock = record {
  s_magic = 0;
  s_dev = 0;
  s_size = 100;
  s_ino_table = 10;
  s_ino_len = 4;
  s_free_blk = 2;
  s_free_blk_len = 1;
  s_free_ino = 3;
  s_free_ino_len = 1;
  s_flag = 0;
  s_mtime = 0;
  s_ctime = 0;
  s_atime = 0;
  s_mpoint = [];
}

unfoldable pub read_fit : Blocks → ℕ → ℕ → List ℕ
read_fit d dev blk = fit blk_sz (d dev blk)

unfoldable pub overwrite : Blocks → ℕ → ℕ → List ℕ → Blocks
overwrite d dev blk bytes dev' blk' = if dev == dev' && blk == blk' then bytes else d dev' blk'

abbrev pub host : Host
host = record {
  Disk = Blocks;
  read_block = read_fit;
  write_block = overwrite;
  holdingsleep = λ cs l. true;
  inode_size = 16;
  inode_of_bytes = unpack;
  bytes_of_inode = pack;
  dirent_size = 32;
  dirent_of_bytes = λ b. record { d_inode = get_or b 0 0; name = [] };
  superblock_of_bytes = λ b. root_superblock;
}

overwrite_other :
    (d : Blocks) (dev blk dev' blk' : ℕ) (bytes : List ℕ)
    → (dev ≢ dev') ⊎ (blk ≢ blk')
    → read_fit (overwrite d dev blk bytes) dev' blk' ≡ read_fit d dev' blk'
unfolding read_fit overwrite
overwrite_other d dev blk dev' blk' bytes (inl n) = ground (arith, ==_ne dev dev' n)
overwrite_other d dev blk dev' blk' bytes (inr n) = ground (arith, ==_ne blk blk' n)

overwrite_self :
    (d : Blocks) (dev blk : ℕ) (bytes : List ℕ)
    → length bytes ≡ blk_sz
    → read_fit (overwrite d dev blk bytes) dev blk ≡ bytes
unfolding read_fit overwrite
overwrite_self d dev blk bytes e = ground (arith, ==_refl dev, ==_refl blk, fit_lem blk_sz bytes e)

length-pack : (i : DInode) → length (pack i) ≡ 16
unfolding pack
length-pack i = omega (
  arith,
  length-append (fit addr_len i.i_addr) (i.i_ctime ∷ i.i_atime ∷ i.i_mtime ∷ []),
  length-fit addr_len i.i_addr,
)

pub host-IsLawful : IsLawful host
unfolding read_fit
host-IsLawful = record {
  read_self = overwrite_self;
  read_other = overwrite_other;
  length_read = λ d dev blk. length-fit blk_sz (d dev blk);
  length_inode = length-pack;
}

-- Block 12 of device 0 holds 7, 8 and 9.
unfoldable pub disk0 : Blocks
disk0 dev blk = if dev == 0 && blk == 12 then 7 ∷ 8 ∷ 9 ∷ [] else []

abbrev pub cached : Buffer
cached = record { b_data = read_fit disk0 0 12; b_dev = 0; b_blk = 12; b_dirty = 0; b_count = 1 }

abbrev pub spare_buffer : Buffer
spare_buffer = record { b_data = []; b_dev = 0; b_blk = 0; b_dirty = 0; b_count = 0 }

abbrev pub file_core : DInode
file_core = record {
  i_mode = 0o100644;
  i_nlink = 1;
  i_uid = 1000;
  i_gid = 100;
  i_size = 3;
  i_addr = 12 ∷ 13 ∷ 14 ∷ 15 ∷ 16 ∷ 17 ∷ 18 ∷ 19 ∷ [];
  i_ctime = 1;
  i_atime = 2;
  i_mtime = 3;
}

abbrev pub root : Inode
root = record {
  core = record file_core { i_mode = 0o040755 };
  i_num = 2;
  i_dev = 0;
  i_flag = 0;
  i_count = 1;
}

abbrev pub file_inode : Inode
file_inode = record { core = file_core; i_num = 5; i_dev = 0; i_flag = 0; i_count = 1 }

abbrev pub free_inode : Inode
free_inode = record file_inode { i_num = 0; i_count = 0 }

abbrev pub opened : File
opened = record { f_mode = 0o100644; f_flag = 1; f_count = 1; f_off = 1; f_inode = some 1 }

abbrev pub proc0 : Proc
proc0 = record {
  p_uid = 1000;
  p_gid = 100;
  p_cwd = some 0;
  p_filp = none ∷ none ∷ none ∷ some 0 ∷ replicate 124 none;
}

abbrev pub system : Kernel host
system = record {
  mtable = root_superblock ∷ [];
  icache = root ∷ file_inode ∷ free_inode ∷ [];
  buffers = cached ∷ spare_buffer ∷ [];
  open_files = opened ∷ [];
  current = some proc0;
  disk = disk0;
  calls = [];
}
