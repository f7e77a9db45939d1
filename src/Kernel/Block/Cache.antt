-- ===== src/Kernel/Block/Cache.antt =====
-- The invariants of the block cache: a block is cached once, and what is in use and clean is what
-- the disk holds.
use yaup.Base.{
  ℕ, ◌+◌, ◌≡◌, sym, ◌∙◌, ◌≢◌, some, List, Option-cases, inl, inr, arith, get_elem?, set, find_index,
  find_index_found, find_index_miss, get_elem?-set_cases, ok,
}
use yaup.Kernel.Host.{Host, Kernel, Buffer}
use yaup.Kernel.Block.{caches, bread}
use yaup.Kernel.Block.Bread.{slot, load, bread-load, load-IsLoaded}

-- Two buffers that cache one block are one buffer. Block 0 of device 0 stands for no block.
abbrev pub IsUnique : List Buffer → Type 0
IsUnique bs =
    (i j : ℕ) (b c : Buffer)
    → get_elem? bs i ≡ some b
    → get_elem? bs j ≡ some c
    → b.b_dev ≡ c.b_dev
    → b.b_blk ≡ c.b_blk
    → b.b_dev + b.b_blk ≢ 0
    → i ≡ j

-- What a buffer in use holds is what the disk holds, unless it is marked dirty.
abbrev pub IsCoherent : {h : Host} → Kernel h → Type 0
IsCoherent {h} s =
    (i : ℕ) (b : Buffer)
    → get_elem? s.buffers i ≡ some b
    → b.b_count ≢ 0
    → b.b_dirty ≡ 0
    → b.b_data ≡ h.read_block s.disk b.b_dev b.b_blk

pub set-IsUnique :
    (bs : List Buffer) (i : ℕ) (old new : Buffer)
    → get_elem? bs i ≡ some old
    → ((j : ℕ) (c : Buffer)
        → get_elem? bs j ≡ some c
        → new.b_dev ≡ c.b_dev
        → new.b_blk ≡ c.b_blk
        → new.b_dev + new.b_blk ≢ 0
        → i ≡ j)
    → IsUnique bs
    → IsUnique (set bs i new)
set-IsUnique bs i old new g fresh u j k b c gj gk ed eb nz =
    elim (get_elem?-set_cases bs i j new b g gj) [
      | inl (p, q) ↦ elim (get_elem?-set_cases bs i k new c g gk) [
        | inl (p', q') ↦ sym p ∙ p'
        | inr (n', e') ↦ sym p ∙ fresh k c e' (ground arith) (ground arith) (ground arith)
      ]
      | inr (n, e) ↦ elim (get_elem?-set_cases bs i k new c g gk) [
        | inl (p', q') ↦ sym (fresh j b e (ground arith) (ground arith) (ground arith)) ∙ p'
        | inr (n', e') ↦ u j k b c e e' ed eb nz
      ]
    ]

-- No other buffer caches a block than its slot.
pub slot-only :
    (dev blk : ℕ) (bs : List Buffer) (i j : ℕ) (c : Buffer)
    → IsUnique bs
    → slot dev blk bs ≡ some i
    → get_elem? bs j ≡ some c
    → dev ≡ c.b_dev
    → blk ≡ c.b_blk
    → dev + blk ≢ 0
    → i ≡ j
unfolding slot caches
slot-only dev blk bs i j c u e g ed eb nz = elim (Option-cases (find_index (caches dev blk) bs)) [
  | inl miss ↦ absurd (ground (arith, find_index_miss (caches dev blk) bs j miss g))
  | inr (k, hit) ↦
      let (b, g', p) = find_index_found (caches dev blk) bs i (ground arith) in
      u i j b c g' g (ground arith) (ground arith) (ground arith)
]

-- When a cache without duplicates has a slot for a block, `bread` returns that slot and leaves a
-- cache without duplicates.
pub bread-IsUnique :
    (h : Host) (dev blk : ℕ) (s : Kernel h) (i : ℕ)
    → IsUnique s.buffers
    → slot dev blk s.buffers ≡ some i
    → (t : Kernel h) × (bread h dev blk s ≡ ok (i, t)) × IsUnique t.buffers
bread-IsUnique h dev blk s i u e =
    let bytes = h.read_block s.disk dev blk in
    let (old, g, (cs, r)) = bread-load h dev blk s i e in
    let l = load-IsLoaded dev blk bytes s.buffers i old e g in
    (
      _,
      r,
      set-IsUnique s.buffers i old (load dev blk bytes old) g
          (λ j c gj ed eb nz.
            slot-only dev blk s.buffers i j c u e gj (sym l.dev_named ∙ ed) (sym l.blk_named ∙ eb)
              (ground (arith, l.dev_named, l.blk_named, nz)))
          u,
    )

-- When every clean buffer in use equals its block of the disk and a block has a slot in the cache,
-- `bread` returns that slot and every clean buffer in use still equals its block.
pub bread-IsCoherent :
    (h : Host) (dev blk : ℕ) (s : Kernel h) (i : ℕ)
    → IsCoherent s
    → slot dev blk s.buffers ≡ some i
    → (t : Kernel h) × (bread h dev blk s ≡ ok (i, t)) × IsCoherent t
bread-IsCoherent h dev blk s i v e =
    let bytes = h.read_block s.disk dev blk in
    let (old, g, (cs, r)) = bread-load h dev blk s i e in
    let l = load-IsLoaded dev blk bytes s.buffers i old e g in
    (
      _,
      r,
      λ j b gj nz cl. elim (get_elem?-set_cases s.buffers i j (load dev blk bytes old) b g gj) [
        | inl (p, q) ↦ ground (arith, l.dev_named, l.blk_named, l.fetched, l.kept, v i old g)
        | inr (n, e') ↦ v j b e' nz cl
      ],
    )
