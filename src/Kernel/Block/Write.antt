-- ===== src/Kernel/Block/Write.antt =====
-- `bwrite` and `brelease`: what reaches the disk, and who still uses a buffer.
use yaup.Base.{
  ℕ, ◌+◌, ◌-◌, ◌%◌, ◌<◌, ◌≡◌, sym, ◌∙◌, ◌≢◌, ◌⊎◌, true, false, some, ◌∷◌, Bool-cases, inl, inr,
  arith, get_elem?, set, get_elem?-set_cases, ok, panic, fault, length,
}
use native.Mathlib.Decide.{ℕ_discrete}
use yaup.Kernel.Host.{Host, Kernel, Buffer, IsLawful, acquire, release, buffer_entry, blk_sz}
use yaup.Kernel.Block.{bwrite, brelease}
use yaup.Kernel.Memory.Laws.{memset-fault}
use yaup.Kernel.Block.Cache.{IsUnique, IsCoherent, set-IsUnique}

module _ (h : Host) (s : Kernel h) (i : ℕ) (b : Buffer)
    (at_i : get_elem? s.buffers i ≡ some b) where
  -- A clean buffer is not written: nothing changes but the record of the lock calls.
  pub bwrite-clean :
      b.b_dirty ≡ 0
      → bwrite h i s
        ≡ ok (0, record s { calls = release (buffer_entry i) ∷ acquire (buffer_entry i) ∷ s.calls })
  unfolding bwrite
  bwrite-clean e = ground arith

  -- A dirty one with other users is written to its block and loses one. Its lock stays taken.
  pub bwrite-shared :
      b.b_dirty ≢ 0
      → b.b_count ≢ 1
      → b.b_count < 256
      → bwrite h i s
        ≡ ok (
          0,
          record s {
            disk = h.write_block s.disk b.b_dev b.b_blk b.b_data;
            buffers = set s.buffers i (record b { b_count = (b.b_count + 255) % 256 });
            calls = acquire (buffer_entry i) ∷ s.calls;
          },
        )
  unfolding bwrite
  bwrite-shared ne many small = ground arith

  -- The last user's `bwrite` of a dirty buffer clears it with `memset`, which runs out of the
  -- buffer: a fault.
  pub bwrite-last : b.b_dirty ≢ 0 → b.b_count ≡ 1 → length b.b_data ≡ blk_sz → bwrite h i s ≡ fault
  unfolding bwrite
  bwrite-last ne one len =
      ground
        (arith, memset-fault 4095 b.b_data 0 0 blk_sz (omega arith) (omega arith) (omega arith))

  pub brelease-unused : b.b_count ≡ 0 → brelease h i s ≡ panic "brelease: unused buffer"
  unfolding brelease
  brelease-unused e = ground arith

  pub brelease-held :
      b.b_count ≢ 0
      → h.holdingsleep s.calls (buffer_entry i) ≡ true
      → brelease h i s
        ≡ ok (
          0,
          record s {
            buffers = set s.buffers i (record b { b_count = b.b_count - 1 });
            calls = release (buffer_entry i) ∷ s.calls;
          },
        )
  unfolding brelease
  brelease-held ne e = ground arith

  pub brelease-free :
      b.b_count ≢ 0 → h.holdingsleep s.calls (buffer_entry i) ≡ false → brelease h i s ≡ ok (0, s)
  unfolding brelease
  brelease-free ne e = ground arith

pub keys_differ : (a b c d : ℕ) → (a ≡ b → c ≡ d → ⊥) → (a ≢ b) ⊎ (c ≢ d)
keys_differ a b c d f = elim (ℕ_discrete a b) [ yes p ↦ inr (f p) | no n ↦ inl n ]

-- In a cache that has no duplicates and is coherent, `bwrite` of a dirty buffer of full size with
-- other users, at most 255 in all, keeps both and puts the buffer's bytes in its block of the disk
-- and in no other, if the block is not block 0 of device 0.
pub bwrite-keeps :
    (h : Host) (s : Kernel h) (i : ℕ) (b : Buffer)
    → IsLawful h
    → IsUnique s.buffers
    → IsCoherent s
    → get_elem? s.buffers i ≡ some b
    → b.b_dev + b.b_blk ≢ 0
    → b.b_dirty ≢ 0
    → b.b_count ≢ 1
    → b.b_count < 256
    → length b.b_data ≡ blk_sz
    → (t : Kernel h) × (bwrite h i s ≡ ok (0, t))
      × IsUnique t.buffers
      × IsCoherent t
      × (h.read_block t.disk b.b_dev b.b_blk ≡ b.b_data)
      × ((dev blk : ℕ)
          → (b.b_dev ≢ dev) ⊎ (b.b_blk ≢ blk)
          → h.read_block t.disk dev blk ≡ h.read_block s.disk dev blk)
bwrite-keeps h s i b law u v g nz dirty many small full =
    let new = record b { b_count = (b.b_count + 255) % 256 } in
    (
      _,
      bwrite-shared h s i b g dirty many small,
      set-IsUnique s.buffers i b new g (λ j c gj. u i j b c g gj) u,
      λ j c gj used clean. elim (get_elem?-set_cases s.buffers i j new c g gj) [
        | inl (p, q) ↦ absurd (ground arith)
        | inr (n, e') ↦
            v j c e' used clean
            ∙ sym (
                law.read_other s.disk b.b_dev b.b_blk c.b_dev c.b_blk b.b_data (
                  keys_differ b.b_dev c.b_dev b.b_blk c.b_blk
                    (λ ed eb. n (u i j b c g e' ed eb nz))))
      ],
      law.read_self s.disk b.b_dev b.b_blk b.b_data full,
      λ dev blk. law.read_other s.disk b.b_dev b.b_blk dev blk b.b_data,
    )

-- In a cache that has no duplicates and is coherent, `brelease` of a buffer in use returns and
-- keeps both, whether or not the buffer's lock is held.
pub brelease-keeps :
    (h : Host) (s : Kernel h) (i : ℕ) (b : Buffer)
    → IsUnique s.buffers
    → IsCoherent s
    → get_elem? s.buffers i ≡ some b
    → b.b_count ≢ 0
    → (t : Kernel h) × (brelease h i s ≡ ok (0, t)) × IsUnique t.buffers × IsCoherent t
brelease-keeps h s i b u v g ne = elim (Bool-cases (h.holdingsleep s.calls (buffer_entry i))) [
  | inl held ↦ (
    _,
    brelease-held h s i b g ne held,
    set-IsUnique s.buffers i b (record b { b_count = b.b_count - 1 }) g (λ j c gj. u i j b c g gj)
        u,
    λ j c gj used clean.
        elim (get_elem?-set_cases s.buffers i j (record b { b_count = b.b_count - 1 }) c g gj) [
          | inl (p, q) ↦ ground (arith, v i b g)
          | inr (n, e') ↦ v j c e' used clean
        ],
  )
  | inr free ↦ (s, brelease-free h s i b g ne free, u, v)
]
