-- ===== src/Kernel/Block/Refines.antt =====
-- The block cache as an abstract disk: blocks with bytes, in which reading a block gives its bytes and
-- changes nothing, and what users see is kept by the writes of the cache.
use yaup.Base.{
  ℕ, ◌+◌, ◌%◌, ◌<◌, ◌≡◌, sym, ap, ap₂, ◌∙◌, ◌≢◌, ◌⊎◌, refl, some, List, inl, inr, arith, get_elem?,
  set, get_elem?-set_cases, get_elem?-set_ne, get_elem?-set_self, ok,
}
use native.Mathlib.Decide.{ℕ_discrete}
use yaup.Kernel.Host.{Host, Kernel, Buffer, IsLawful}
use yaup.Kernel.Block.{bread, bwrite}
use yaup.Kernel.Block.Bread.{slot, load, bread-load, load-IsLoaded, slot-usable}
use yaup.Kernel.Block.Cache.{IsUnique, set-IsUnique, slot-only}
use yaup.Kernel.Block.Write.{bwrite-shared, bwrite-clean, keys_differ}

-- The abstract disk: the bytes of each block of each device.
abbrev pub Blocks : Type 0
Blocks = ℕ → ℕ → List ℕ

-- A buffer in use caches the block and has the bytes.
abbrev pub IsCached : List Buffer → ℕ → ℕ → List ℕ → Type 0
IsCached bs dev blk bytes =
    (i : ℕ) × (b : Buffer) × (get_elem? bs i ≡ some b)
    × (b.b_dev ≡ dev)
    × (b.b_blk ≡ blk)
    × (b.b_count ≢ 0)
    × (b.b_data ≡ bytes)

abbrev pub IsUncached : List Buffer → ℕ → ℕ → Type 0
IsUncached bs dev blk =
    (i : ℕ) (b : Buffer) → get_elem? bs i ≡ some b → b.b_dev ≡ dev → b.b_blk ≡ blk → b.b_count ≡ 0

-- Every block has its bytes in a buffer in use, or else on the disk. Block 0 of device 0 stands for no
-- block.
abbrev pub Represents : (h : Host) → Kernel h → Blocks → Type 0
Represents h s c =
    (dev blk : ℕ)
    → dev + blk ≢ 0
    → IsCached s.buffers dev blk (c dev blk)
      ⊎ (IsUncached s.buffers dev blk × (h.read_block s.disk dev blk ≡ c dev blk))

-- A buffer that is in use already keeps its bytes.
IsCached-set :
    (bs : List Buffer) (i dev blk : ℕ) (old new : Buffer) (bytes : List ℕ)
    → get_elem? bs i ≡ some old
    → (old.b_count ≢ 0
        → (new.b_dev ≡ old.b_dev)
          × (new.b_blk ≡ old.b_blk)
          × (new.b_count ≢ 0)
          × (new.b_data ≡ old.b_data))
    → IsCached bs dev blk bytes
    → IsCached (set bs i new) dev blk bytes
IsCached-set bs i dev blk old new bytes g same (j, b, gj, ed, eb, used, held) =
    elim (ℕ_discrete i j) [
      | yes p ↦
          let is_old : old ≡ b = ground (arith, g, gj) in
          let used' : old.b_count ≢ 0 = ground arith in
          let (d, k, n, e) = same used' in
          (i, new, get_elem?-set_self bs i new g, ground arith, ground arith, n, ground arith)
      | no n ↦ (j, b, get_elem?-set_ne bs i j new n ∙ gj, ed, eb, used, held)
    ]

pub keys_cases : (a b c d : ℕ) → ((a ≡ b) × (c ≡ d)) ⊎ (a ≡ b → c ≡ d → ⊥)
keys_cases a b c d = elim (ℕ_discrete a b) [
  | yes p ↦ elim (ℕ_discrete c d) [ yes q ↦ inl (p, q) | no n ↦ inr (λ p' q. n q) ]
  | no n ↦ inr (λ p q. n p)
]

-- A block that is not cached is cached by a new buffer or by none.
IsUncached-set :
    (bs : List Buffer) (i dev blk : ℕ) (old new : Buffer) (bytes : List ℕ)
    → get_elem? bs i ≡ some old
    → new.b_count ≢ 0
    → (new.b_dev ≡ dev → new.b_blk ≡ blk → new.b_data ≡ bytes)
    → IsUncached bs dev blk
    → IsCached (set bs i new) dev blk bytes ⊎ IsUncached (set bs i new) dev blk
IsUncached-set bs i dev blk old new bytes g used fresh un =
    elim (keys_cases new.b_dev dev new.b_blk blk) [
      | inl (p, q) ↦ inl (i, new, get_elem?-set_self bs i new g, p, q, used, fresh p q)
      | inr ne ↦ inr (λ j b gj ed eb. elim (get_elem?-set_cases bs i j new b g gj) [
        | inl (p, q) ↦ absurd (ne (ap (λ x. x.b_dev) q ∙ ed) (ap (λ x. x.b_blk) q ∙ eb))
        | inr (n, e) ↦ un j b e ed eb
      ])
    ]

-- The slot of a block that no buffer in use caches is free.
slot-unused :
    (dev blk : ℕ) (bs : List Buffer) (i : ℕ) (old : Buffer)
    → slot dev blk bs ≡ some i
    → get_elem? bs i ≡ some old
    → IsUncached bs dev blk
    → old.b_count ≡ 0
unfolding yaup.Kernel.Block.caches yaup.Kernel.Block.unused
slot-unused dev blk bs i old e g un = elim (slot-usable dev blk bs i old e g) [
  | inl c ↦ un i old g (ground arith) (ground arith)
  | inr u ↦ ground arith
]

-- A cache without duplicates that represents an abstract disk, and a block with a slot, which is not
-- block 0 of device 0: `bread` returns the slot, which then holds the bytes that the block has on
-- the abstract disk; the cache represents the same abstract disk as before and has no duplicates.
pub bread-Represents :
    (h : Host) (dev blk : ℕ) (s : Kernel h) (i : ℕ) (c : Blocks)
    → Represents h s c
    → IsUnique s.buffers
    → dev + blk ≢ 0
    → slot dev blk s.buffers ≡ some i
    → (t : Kernel h) × (b : Buffer) × (bread h dev blk s ≡ ok (i, t))
      × (get_elem? t.buffers i ≡ some b)
      × (b.b_data ≡ c dev blk)
      × Represents h t c
      × IsUnique t.buffers
bread-Represents h dev blk s i c rep u nz e =
    let bytes = h.read_block s.disk dev blk in
    let (old, g, (cs, r)) = bread-load h dev blk s i e in
    let l = load-IsLoaded dev blk bytes s.buffers i old e g in
    let new = load dev blk bytes old in
    let fresh : (d k : ℕ)
        → IsUncached s.buffers d k
        → h.read_block s.disk d k ≡ c d k
        → new.b_dev ≡ d
        → new.b_blk ≡ k
        → new.b_data ≡ c d k =
      λ d k un disk p q.
        let pd : dev ≡ d = sym l.dev_named ∙ p in
        let qk : blk ≡ k = sym l.blk_named ∙ q in
        let un' : IsUncached s.buffers dev blk = λ j b gj ed eb. un j b gj (ed ∙ pd) (eb ∙ qk) in
        (l.fetched (slot-unused dev blk s.buffers i old e g un')).0
        ∙ ap₂ (h.read_block s.disk) pd qk
        ∙ disk in
    let t : Kernel h = record s { buffers = set s.buffers i new; calls = cs } in
    (
      t,
      new,
      r,
      get_elem?-set_self s.buffers i new g,
      elim (rep dev blk nz) [
        | inl (j, b, gj, ed, eb, used, held) ↦
            let same = slot-only dev blk s.buffers i j b u e gj (sym ed) (sym eb) nz in
            ground (arith, l.kept)
        | inr (un, disk) ↦ fresh dev blk un disk l.dev_named l.blk_named
      ],
      λ d k nz'. elim (rep d k nz') [
        | inl cached ↦ inl (
            IsCached-set s.buffers i d k old new (c d k) g (λ used. ground (arith, l.kept used))
              cached)
        | inr (un, disk) ↦
            elim (IsUncached-set s.buffers i d k old new (c d k) g l.in_use
              (λ p q. fresh d k un disk p q) un) [
                | inl cached ↦ inl cached
                | inr un' ↦ inr (un', disk)
              ]
      ],
      set-IsUnique s.buffers i old new g
          (λ j x gj ed eb nz'.
            slot-only dev blk s.buffers i j x u e gj (sym l.dev_named ∙ ed) (sym l.blk_named ∙ eb)
              (ground (arith, l.dev_named, l.blk_named, nz')))
          u,
    )

-- In a cache that represents an abstract disk, `bwrite` of a buffer with between 2 and 255 users
-- returns 0, whether the buffer is dirty or not, and the cache represents the same abstract disk.
pub bwrite-Represents :
    (h : Host) (s : Kernel h) (i : ℕ) (b : Buffer) (c : Blocks)
    → IsLawful h
    → Represents h s c
    → get_elem? s.buffers i ≡ some b
    → 1 < b.b_count
    → b.b_count < 256
    → (t : Kernel h) × (bwrite h i s ≡ ok (0, t)) × Represents h t c
bwrite-Represents h s i b c law rep g many small = elim (ℕ_discrete b.b_dirty 0) [
  | yes clean ↦ (_, bwrite-clean h s i b g clean, rep)
  | no dirty ↦
      let new = record b { b_count = (b.b_count + 255) % 256 } in
      (
        _,
        bwrite-shared h s i b g dirty (omega arith) small,
        λ d k nz. elim (rep d k nz) [
          | inl cached ↦ inl (
              IsCached-set s.buffers i d k b new (c d k) g (λ used. (refl, refl, omega arith, refl))
                cached)
          | inr (un, disk) ↦
              let apart : b.b_dev ≡ d → b.b_blk ≡ k → ⊥ = λ p q. ground (arith, un i b g p q) in
              inr (
                λ j x gj ed eb. elim (get_elem?-set_cases s.buffers i j new x g gj) [
                  | inl (p, q) ↦
                      absurd (apart (ap (λ y. y.b_dev) q ∙ ed) (ap (λ y. y.b_blk) q ∙ eb))
                  | inr (n, e) ↦ un j x e ed eb
                ],
                law.read_other s.disk b.b_dev b.b_blk d k b.b_data
                      (keys_differ b.b_dev d b.b_blk k apart)
                    ∙ disk,
              )
        ],
      )
]
