-- ===== src/Kernel/Block/Bread.antt =====
-- `bget` and `bread`: which buffer they give, and what it holds.
use yaup.Base.{
  ℕ, ◌≡◌, ◌≢◌, ◌⊎◌, true, false, Option, none, some, List, ◌∷◌, Option-cases, arith, if◌then◌else◌,
  get_elem?, set, find_index, find_index_found, find_index_miss, get_elem?-set_self, set-get_elem?,
  set-set, inl, inr, ok, panic,
}
use yaup.Kernel.Host.{Host, Kernel, Buffer, LockCall}
use yaup.Kernel.Host.{acquire, release, initlock, buffer_lock, buffer_entry}
use yaup.Kernel.Block.{caches, unused, claim, bget, bread}

-- The buffer that serves a block: the one that caches it, or else the first unused one.
unfoldable pub slot : ℕ → ℕ → List Buffer → Option ℕ
slot dev blk bs = elim (find_index (caches dev blk) bs) [
  | some i ↦ some i
  | none ↦ find_index unused bs
]

module _ (h : Host) (dev blk : ℕ) (s : Kernel h) where
  bget-hit :
      (i : ℕ)
      → find_index (caches dev blk) s.buffers ≡ some i
      → bget h dev blk s
        ≡ ok (i, record s { calls = release buffer_lock ∷ acquire buffer_lock ∷ s.calls })
  unfolding bget
  bget-hit i e = ground arith

  bget-miss :
      (i : ℕ) (b : Buffer)
      → find_index (caches dev blk) s.buffers ≡ none
      → find_index unused s.buffers ≡ some i
      → get_elem? s.buffers i ≡ some b
      → bget h dev blk s
        ≡ ok (
          i,
          record s {
            buffers = set s.buffers i (claim dev blk b);
            calls = release buffer_lock ∷ initlock (buffer_entry i) ∷ acquire buffer_lock ∷ s.calls;
          },
        )
  unfolding bget
  bget-miss i b e f g = ground arith

-- The buffer that `bread` leaves in the slot of a block whose bytes on disk are `bytes`.
unfoldable pub load : ℕ → ℕ → List ℕ → Buffer → Buffer
load dev blk bytes old =
    if unused old
    then record {
      b_data = bytes;
      b_dev = dev;
      b_blk = blk;
      b_dirty = if caches dev blk old then old.b_dirty else 0;
      b_count = 1;
    }
    else old

-- The state after `bread`: only the slot and the record of the lock calls are new.
abbrev pub BreadGives : (h : Host) → ℕ → ℕ → Kernel h → ℕ → Buffer → Type 0
BreadGives h dev blk s i old =
    (cs : List LockCall) × (bread h dev blk s
      ≡ ok (
        i,
        record s {
          buffers = set s.buffers i (load dev blk (h.read_block s.disk dev blk) old);
          calls = cs;
        },
      ))

module _ (h : Host) (dev blk : ℕ) (s : Kernel h) where
  bread-hit :
      (i : ℕ) (old : Buffer)
      → find_index (caches dev blk) s.buffers ≡ some i
      → get_elem? s.buffers i ≡ some old
      → caches dev blk old ≡ true
      → BreadGives h dev blk s i old
  unfolding bread load caches unused
  bread-hit i old e g c = (
    release buffer_lock ∷ acquire buffer_lock ∷ s.calls,
    ground (arith, bget-hit h dev blk s i e, set-get_elem? s.buffers i g),
  )

  bread-miss :
      (i : ℕ) (old : Buffer)
      → find_index (caches dev blk) s.buffers ≡ none
      → find_index unused s.buffers ≡ some i
      → get_elem? s.buffers i ≡ some old
      → unused old ≡ true
      → caches dev blk old ≡ false
      → BreadGives h dev blk s i old
  unfolding bread load caches unused
  bread-miss i old e f g u c = (
    release buffer_lock ∷ initlock (buffer_entry i) ∷ acquire buffer_lock ∷ s.calls,
    ground (
      arith,
      bget-miss h dev blk s i old e f g,
      get_elem?-set_self s.buffers i (claim dev blk old) g,
      set-set s.buffers i (claim dev blk old) (load dev blk (h.read_block s.disk dev blk) old),
    ),
  )

  -- When a block has a slot, `bread` returns it.
  pub bread-load :
      (i : ℕ)
      → slot dev blk s.buffers ≡ some i
      → (old : Buffer) × (get_elem? s.buffers i ≡ some old) × BreadGives h dev blk s i old
  unfolding slot
  bread-load i e = elim (Option-cases (find_index (caches dev blk) s.buffers)) [
    | inl miss ↦
        let e' : find_index unused s.buffers ≡ some i = ground arith in
        let (old, g, u) = find_index_found unused s.buffers i e' in
        (old, g, bread-miss i old miss e' g u (find_index_miss _ s.buffers i miss g))
    | inr (j, hit) ↦
        let e' : find_index (caches dev blk) s.buffers ≡ some i = ground arith in
        let (old, g, c) = find_index_found (caches dev blk) s.buffers i e' in
        (old, g, bread-hit i old e' g c)
  ]

  -- When it has none, `bread` panics.
  pub bread-full :
      slot dev blk s.buffers ≡ none → bread h dev blk s ≡ panic "bget: no buffer available"
  unfolding bread bget slot
  bread-full e = ground arith

-- What the slot of a block holds after the read.
pub record IsLoaded (dev blk : ℕ) (bytes : List ℕ) (old new : Buffer) : Type 0 where
  pub dev_named : new.b_dev ≡ dev
  pub blk_named : new.b_blk ≡ blk
  pub in_use : new.b_count ≢ 0
  pub fetched : old.b_count ≡ 0 → (new.b_data ≡ bytes) × (new.b_count ≡ 1)
  pub kept : old.b_count ≢ 0 → new ≡ old

-- The slot of a block caches it, or is unused.
pub slot-usable :
    (dev blk : ℕ) (bs : List Buffer) (i : ℕ) (old : Buffer)
    → slot dev blk bs ≡ some i
    → get_elem? bs i ≡ some old
    → (caches dev blk old ≡ true) ⊎ (unused old ≡ true)
unfolding slot
slot-usable dev blk bs i old e g = elim (Option-cases (find_index (caches dev blk) bs)) [
  | inl miss ↦ let (old', g', u) = find_index_found unused bs i (ground arith) in inr (ground arith)
  | inr (j, hit) ↦
      let (old', g', c) = find_index_found (caches dev blk) bs i (ground arith) in
      inl (ground arith)
]

pub load-IsLoaded :
    (dev blk : ℕ) (bytes : List ℕ) (bs : List Buffer) (i : ℕ) (old : Buffer)
    → slot dev blk bs ≡ some i
    → get_elem? bs i ≡ some old
    → IsLoaded dev blk bytes old (load dev blk bytes old)
unfolding load caches unused
load-IsLoaded dev blk bytes bs i old e g = ground (arith, slot-usable dev blk bs i old e g)
