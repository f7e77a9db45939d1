-- ===== src/Kernel/Block.antt =====
-- kernel/fs/block.c: the cache of disk blocks.
pub mod Bread
pub mod Cache
pub mod Write
pub mod Synced
pub mod Refines
use yaup.Base.{
  ℕ, zero, suc, ◌+◌, ◌-◌, ◌*◌, ◌/◌, ◌%◌, ltb, lift, faults, out_of_fuel, ◌≡◌, refl, Bool, true,
  false, ◌&&◌, Option, none, some, List, [], ◌∷◌, arith, if◌then◌else◌, ◌==◌, leb, get_elem?, set,
  find_index, replicate, Run, ok, panic, fault, Cmd, ◌>>=◌, ◌>>◌, pure, panics, gets, modify, deref,
}
use yaup.Kernel.Host.{
  Host, Kernel, Buffer, Superblock, Lock, LockCall, acquire, release, initlock, blk_sz,
}
use yaup.Kernel.Memory.{memset}
use yaup.Kernel.Bitmap.{BitmapPtr, null, wild, get_free_pos}
use yaup.Kernel.Host.{buffer_lock, buffer_entry}

unfoldable pub caches : ℕ → ℕ → Buffer → Bool
caches dev blk b = b.b_dev == dev && b.b_blk == blk

unfoldable pub unused : Buffer → Bool
unused b = b.b_count == 0

-- The fields that `bget` sets in the buffer it gives away.
abbrev pub claim : ℕ → ℕ → Buffer → Buffer
claim dev blk b = record b { b_blk = blk; b_dev = dev; b_dirty = 0 }

module _ (h : Host) where
  abbrev pub lock_call : LockCall → Cmd (Kernel h) (Unit {0})
  lock_call c s = ok (tt, record s { calls = c ∷ s.calls })

  abbrev pub buffer_at : ℕ → Cmd (Kernel h) Buffer
  buffer_at i s = deref (get_elem? s.buffers i) s

  abbrev pub set_buffer : ℕ → Buffer → Cmd (Kernel h) (Unit {0})
  set_buffer i b s = ok (tt, record s { buffers = set s.buffers i b })

  unfoldable pub bget : ℕ → ℕ → Cmd (Kernel h) ℕ
  bget dev blk = do
    lock_call (acquire buffer_lock)
    bs ← gets (λ s. s.buffers)
    elim (find_index (caches dev blk) bs) [
      | some i ↦ do lock_call (release buffer_lock); pure i
      | none ↦ elim (find_index unused bs) [
        | some i ↦ do
          b ← buffer_at i
          set_buffer i (claim dev blk b)
          lock_call (initlock (buffer_entry i))
          lock_call (release buffer_lock)
          pure i
        | none ↦ panics "bget: no buffer available"
      ]
    ]

  -- `disk_read(b)` fills the buffer.
  unfoldable pub bread : ℕ → ℕ → Cmd (Kernel h) ℕ
  bread dev blk = do
    i ← bget dev blk
    b ← buffer_at i
    d ← gets (λ s. s.disk)
    if b.b_count == 0
        then (do
          set_buffer i (record b { b_data = h.read_block d b.b_dev b.b_blk; b_count = 1 })
          pure i)
        else pure i

  unfoldable pub bwrite : ℕ → Cmd (Kernel h) ℕ
  bwrite i = do
    lock_call (acquire (buffer_entry i))
    b ← buffer_at i
    if b.b_dirty == 0 then (do lock_call (release (buffer_entry i)); pure 0) else (do
      modify (λ s. record s { disk = h.write_block s.disk b.b_dev b.b_blk b.b_data })
      let n = (b.b_count + 255) % 256
      if n == 0
          then (do
            bytes ← lift (memset blk_sz b.b_data 0 0 blk_sz)
            set_buffer i (record b { b_count = n; b_blk = 0; b_dev = 0; b_data = bytes })
            pure 0)
          else (do set_buffer i (record b { b_count = n }); pure 0))

  unfoldable pub block : ℕ → Cmd (Kernel h) ℕ
  block i = do
    held ← gets (λ s. h.holdingsleep s.calls buffer_lock)
    if held then (do lock_call (acquire (buffer_entry i)); pure 0) else pure 0

  unfoldable pub brelease : ℕ → Cmd (Kernel h) ℕ
  brelease i = do
    b ← buffer_at i
    held ← gets (λ s. h.holdingsleep s.calls (buffer_entry i))
    if leb b.b_count 0
        then panics "brelease: unused buffer"
        else if held
        then (do
          set_buffer i (record b { b_count = b.b_count - 1 })
          lock_call (release (buffer_entry i))
          pure 0)
        else pure 0

  -- `&(mtable.superblock[dev])`
  abbrev pub superblock_at : ℕ → Cmd (Kernel h) Superblock
  superblock_at dev s = deref (get_elem? s.mtable dev) s

  -- A byte that is passed where a `bitmap *` is expected.
  unfoldable pub byte_ptr : ℕ → BitmapPtr
  byte_ptr v = if v == 0 then null else wild

  -- `while (i++ < BLK_SZ)` of `balloc` with `n` rounds left: `b->b_data[i]` is passed for a bitmap.
  balloc_scan : ℕ → ℕ → ℕ → ℕ → Cmd (Kernel h) ℕ
  balloc_scan zero dev b i = pure b
  balloc_scan (suc n) dev b i = do
    c ← buffer_at b
    v ← deref (get_elem? c.b_data i)
    blk ← lift (get_free_pos (suc n) (byte_ptr v))
    if blk == 0 then balloc_scan n dev b (i + 1) else bget dev blk

  -- `while (off < sb->s_free_blk_len)`: nothing changes `off`. `b` is what the variable holds so
  -- far, and it holds nothing at first.
  balloc_loop : ℕ → ℕ → Superblock → Option ℕ → Cmd (Kernel h) (Option ℕ)
  balloc_loop zero dev sb b = λ _. out_of_fuel
  balloc_loop (suc fuel) dev sb b =
      if ltb 0 sb.s_free_blk_len
      then (do
        c ← bread dev sb.s_free_blk
        c' ← balloc_scan blk_sz dev c 1
        balloc_loop fuel dev sb (some c'))
      else pure b

  -- The result is an indeterminate pointer, `none`, if the loop is not entered.
  unfoldable pub balloc : ℕ → ℕ → Cmd (Kernel h) (Option ℕ)
  unfolding balloc_loop balloc_scan
  balloc fuel dev = do sb ← superblock_at dev; balloc_loop fuel dev sb none

  -- `set_pos(b->b_data[BLK_OFF(blk)], …)` takes the byte for a pointer and writes there.
  unfoldable pub bfree : ℕ → ℕ → Cmd (Kernel h) ℕ
  bfree dev blk = do
    sb ← superblock_at dev
    b ← bread dev (sb.s_free_blk + blk / 2)
    c ← buffer_at b
    v ← deref (get_elem? c.b_data (blk % 2))
    faults
