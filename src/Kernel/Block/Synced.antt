-- ===== src/Kernel/Block/Synced.antt =====
-- A cache in which every buffer in use holds its block, and how many reads it has room for.
use yaup.Base.{
  ℕ, ◌+◌, ◌-◌, ◌<◌, ◌≤◌, ◌≡◌, refl, ap, ◌∙◌, ◌≢◌, some, Option-cases, Bool-cases, inl, inr, arith,
  get_elem?, find_index, find_index_of_count, count_if, count_if-set, get_elem?-set_self,
  get_elem?-set_cases, ok,
}
use yaup.Kernel.Host.{Host, Kernel, Buffer, buffer_entry}
use yaup.Kernel.Block.{caches, unused, bread, brelease}
use yaup.Kernel.Block.Bread.{slot, load, bread-load, load-IsLoaded}
use yaup.Kernel.Block.Write.{brelease-held, brelease-free}

abbrev pub IsSynced : {h : Host} → Kernel h → Type 0
IsSynced {h} s =
    (i : ℕ) (b : Buffer)
    → get_elem? s.buffers i ≡ some b
    → b.b_count ≢ 0
    → b.b_data ≡ h.read_block s.disk b.b_dev b.b_blk

-- The buffers that nobody uses.
abbrev pub spare : {h : Host} → Kernel h → ℕ
spare s = count_if unused s.buffers

-- `t` is `s` but for the buffers and the record of the lock calls.
pub record SameRest {h : Host} (s t : Kernel h) : Type 0 where
  pub mtable : t.mtable ≡ s.mtable
  pub icache : t.icache ≡ s.icache
  pub open_files : t.open_files ≡ s.open_files
  pub current : t.current ≡ s.current
  pub disk : t.disk ≡ s.disk

pub SameRest-trans : {h : Host} {s t u : Kernel h} → SameRest s t → SameRest t u → SameRest s u
SameRest-trans a b = record {
  mtable = b.mtable ∙ a.mtable;
  icache = b.icache ∙ a.icache;
  open_files = b.open_files ∙ a.open_files;
  current = b.current ∙ a.current;
  disk = b.disk ∙ a.disk;
}

-- Buffer `i` holds block `blk` of device `dev`, and is in use.
pub record Holds {h : Host} (s : Kernel h) (dev blk i : ℕ) : Type 0 where
  pub buffer : Buffer
  pub found : get_elem? s.buffers i ≡ some buffer
  pub dev_named : buffer.b_dev ≡ dev
  pub blk_named : buffer.b_blk ≡ blk
  pub in_use : buffer.b_count ≢ 0

slot_of_spare :
    (h : Host) (dev blk : ℕ) (s : Kernel h)
    → 0 < spare s
    → (i : ℕ) × (slot dev blk s.buffers ≡ some i)
unfolding slot
slot_of_spare h dev blk s lt = elim (Option-cases (find_index (caches dev blk) s.buffers)) [
  | inl miss ↦ let (k, e) = find_index_of_count unused s.buffers lt in (k, rw (miss, slot) e)
  | inr (k, hit) ↦ (k, rw (hit, slot) refl)
]

-- With an unused buffer at hand, `bread` gives a buffer that holds the block, and takes at most
-- one unused buffer.
pub bread-Holds :
    (h : Host) (dev blk : ℕ) (s : Kernel h)
    → IsSynced s
    → 0 < spare s
    → (i : ℕ) × (t : Kernel h) × (bread h dev blk s ≡ ok (i, t))
      × Holds t dev blk i
      × IsSynced t
      × (spare s ≤ spare t + 1)
      × SameRest s t
unfolding unused
bread-Holds h dev blk s v lt =
    let bytes = h.read_block s.disk dev blk in
    let (i, e) = slot_of_spare h dev blk s lt in
    let (old, g, (cs, r)) = bread-load h dev blk s i e in
    let new = load dev blk bytes old in
    let l = load-IsLoaded dev blk bytes s.buffers i old e g in
    (
      i,
      _,
      r,
      record {
        buffer = new;
        found = get_elem?-set_self s.buffers i new g;
        dev_named = l.dev_named;
        blk_named = l.blk_named;
        in_use = l.in_use;
      },
      λ j c gj nz. elim (get_elem?-set_cases s.buffers i j new c g gj) [
        | inl (p, q) ↦ ground (arith, l.dev_named, l.blk_named, l.fetched, l.kept, v i old g)
        | inr (n, e') ↦ v j c e' nz
      ],
      ground (arith, count_if-set unused s.buffers i new g),
      record { mtable = refl; icache = refl; open_files = refl; current = refl; disk = refl },
    )

-- Giving back a buffer in use succeeds and takes no unused buffer.
pub brelease-Holds :
    (h : Host) (dev blk i : ℕ) (s : Kernel h)
    → IsSynced s
    → Holds s dev blk i
    → (t : Kernel h) × (brelease h i s ≡ ok (0, t))
      × IsSynced t
      × (spare s ≤ spare t)
      × SameRest s t
unfolding unused
brelease-Holds h dev blk i s v holds =
    let b = holds.buffer in
    let new = record b { b_count = b.b_count - 1 } in
    let g = holds.found in
    let rest : SameRest s s = record {
      mtable = refl;
      icache = refl;
      open_files = refl;
      current = refl;
      disk = refl;
    } in
    elim (Bool-cases (h.holdingsleep s.calls (buffer_entry i))) [
      | inl held ↦ (
        _,
        brelease-held h s i b g holds.in_use held,
        λ j c gj used. elim (get_elem?-set_cases s.buffers i j new c g gj) [
          | inl (p, q) ↦ ground (arith, v i b g, holds.in_use)
          | inr (n, e') ↦ v j c e' used
        ],
        ground (arith, count_if-set unused s.buffers i new g, holds.in_use),
        record { mtable = refl; icache = refl; open_files = refl; current = refl; disk = refl },
      )
      | inr free ↦ (s, brelease-free h s i b g holds.in_use free, v, omega arith, rest)
    ]

-- What a change of the other fields leaves.
pub Holds-move :
    {h : Host} {s t : Kernel h} {dev blk i : ℕ}
    → Holds s dev blk i
    → t.buffers ≡ s.buffers
    → Holds t dev blk i
Holds-move {i = i} holds e = record {
  buffer = holds.buffer;
  found = ap (λ bs. get_elem? bs i) e ∙ holds.found;
  dev_named = holds.dev_named;
  blk_named = holds.blk_named;
  in_use = holds.in_use;
}

-- The bytes of a buffer that holds a block.
pub Holds-data :
    (h : Host) (s : Kernel h) (dev blk i : ℕ)
    → IsSynced s
    → (holds : Holds s dev blk i) → holds.buffer.b_data ≡ h.read_block s.disk dev blk
Holds-data h s dev blk i v holds =
    ground (arith, v i holds.buffer holds.found holds.in_use, holds.dev_named, holds.blk_named)
