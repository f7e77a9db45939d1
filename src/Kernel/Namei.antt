-- ===== src/Kernel/Namei.antt =====
-- kernel/fs/namei.c: from a path to an inode. A `char *` is the list of the characters that are left
-- before the terminating NUL; a step or a read past the NUL is a fault.
pub mod Paths
use yaup.Base.{
  ℕ, zero, suc, ◌+◌, ◌-◌, ◌/◌, Bool, true, false, Option, none, some, List, [], ◌∷◌, if◌then◌else◌,
  ◌==◌, ltb, length, get_elem?, Run, ok, fault, out_of_fuel, Cmd, ◌>>=◌, ◌>>◌, pure, panics, faults,
  gets, deref, lift,
}
use yaup.Kernel.Host.{Host, Kernel, Inode, Dirent, blk_sz, ndirect}
use yaup.Kernel.Memory.{copy_from}
use yaup.Kernel.Block.{buffer_at, bread, brelease}
use yaup.Kernel.Inodes.{inode_at, iget}

-- `strncmp(a, b, n) == 0`; a string reads 0 at its end.
unfoldable pub strncmp_eq : ℕ → List ℕ → List ℕ → Bool
strncmp_eq zero a b = true
strncmp_eq (suc n) [] [] = true
strncmp_eq (suc n) [] (y ∷ b) = y == 0
strncmp_eq (suc n) (x ∷ a) [] = x == 0
strncmp_eq (suc n) (x ∷ a) (y ∷ b) =
    let rest = strncmp_eq n a b in if x == y then (if x == 0 then true else rest) else false

-- `while (*(path++) != '/');`: the characters after the slash, or no slash before the NUL.
unfoldable pub skip_name : List ℕ → Option (List ℕ)
skip_name [] = none
skip_name (c ∷ path) = let rest = skip_name path in if c == b'/' then some path else rest

module _ (h : Host) where
  -- DENT_PER_BLK
  unfoldable pub dent_per_blk : ℕ
  dent_per_blk = blk_sz / h.dirent_size

  -- The inner loop of `dir_lookup` from byte `j` of a block on: the entry that matches, if any.
  scan_block : ℕ → List ℕ → List ℕ → ℕ → ℕ → Run (Option Dirent)
  scan_block zero block entry esize j = out_of_fuel
  scan_block (suc fuel) block entry esize j =
      let rest = scan_block fuel block entry esize (j + dent_per_blk) in
      if ltb j blk_sz
      then elim (copy_from block j h.dirent_size) [
        | ok bytes ↦
            let d = h.dirent_of_bytes bytes in
            if strncmp_eq esize d.name entry then ok (some d) else rest
        | _ ↦ fault
      ]
      else ok none

  -- The outer loop of `dir_lookup` with `n` blocks to go, from index `i` of `i_addr` on.
  unfoldable pub lookup_blocks : ℕ → ℕ → Inode → List ℕ → ℕ → Cmd (Kernel h) (Option ℕ)
  unfolding scan_block dent_per_blk
  lookup_blocks zero i ip entry esize = pure none
  lookup_blocks (suc n) i ip entry esize = do
    blk ← deref (get_elem? ip.core.i_addr i)
    b ← bread h ip.i_dev blk
    c ← buffer_at h b
    d ← lift (scan_block (blk_sz + 1) c.b_data entry esize 0)
    elim d [
      | some e ↦ do k ← iget h ip.i_dev e.d_inode; pure (some k)
      | none ↦ do brelease h b; lookup_blocks n (i + 1) ip entry esize
    ]

  unfoldable pub dir_lookup : Inode → List ℕ → ℕ → Cmd (Kernel h) (Option ℕ)
  unfolding lookup_blocks
  dir_lookup ip entry esize = lookup_blocks ndirect 0 ip entry esize

  -- `while (*path)`, where `entry` and `path` are equal at the head of the loop.
  unfoldable pub walk : ℕ → Option ℕ → List ℕ → Cmd (Kernel h) (Option ℕ)
  walk zero i path = λ _. out_of_fuel
  walk (suc fuel) i [] = pure i
  walk (suc fuel) i (c ∷ path) = do
    rest ← deref (skip_name (c ∷ path))
    k ← deref i
    ip ← inode_at h k
    found ← dir_lookup ip (c ∷ path) (length (c ∷ path) - length rest)
    elim found [
      | none ↦ panics "namei: entry not found"
      | some j ↦ elim rest [ [] ↦ faults | x ∷ path' ↦ walk fuel (some j) path' ]
    ]

  -- CWD_INODE
  abbrev pub cwd_inode : Cmd (Kernel h) (Option ℕ)
  cwd_inode = do c ← gets (λ s. s.current); p ← deref c; pure p.p_cwd

  -- The walk, and the test that follows it.
  unfoldable pub resolve : Option ℕ → List ℕ → Cmd (Kernel h) ℕ
  resolve i path = do
    found ← walk (length path + 1) i path
    elim found [ none ↦ panics "namei: entry not found" | some k ↦ pure k ]

  -- ROOT_INODE is inode 0 of the cache.
  unfoldable pub namei : List ℕ → Cmd (Kernel h) ℕ
  unfolding resolve
  namei [] = do i ← cwd_inode; resolve i []
  namei (c ∷ path) =
      if c == b'/' then resolve (some 0) path else (do i ← cwd_inode; resolve i (c ∷ path))
