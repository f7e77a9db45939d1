-- ===== src/Kernel/BlockTests.antt =====
-- The theorems on the abstract disk of the block cache at a small system.
use yaup.Base.{
  ℕ, zero, suc, ◌≡◌, ◌≢◌, refl, ap₂, some, [], ◌∷◌, inl, inr, arith, get_elem?, find_index, ok,
}
use yaup.Kernel.Host.{Kernel, Buffer}
use yaup.Kernel.Sample.{host, host-IsLawful, system, cached, spare_buffer, disk0}
use yaup.Kernel.Block.{bread, bwrite, caches, unused}
use yaup.Kernel.Block.Bread.{slot}
use yaup.Kernel.Block.Cache.{IsUnique}
use yaup.Kernel.Block.Refines.{
  Blocks, IsUncached, Represents, keys_cases, bread-Represents, bwrite-Represents,
}

abbrev blocks : Blocks
blocks = host.read_block disk0

other-IsUncached :
    (n d dev blk : ℕ)
    → (0 ≡ dev → 12 ≡ blk → ⊥)
    → IsUncached (record cached { b_count = n; b_dirty = d } ∷ spare_buffer ∷ []) dev blk
other-IsUncached n d dev blk ne zero b g ed eb = ground arith
other-IsUncached n d dev blk ne (suc zero) b g ed eb = ground arith
other-IsUncached n d dev blk ne (suc (suc i)) b g ed eb = ground arith

-- The buffer in use is the first one.
represents :
    (n d : ℕ)
    → n ≢ 0
    → Represents host
        (record system { buffers = record cached { b_count = n; b_dirty = d } ∷ spare_buffer ∷ [] })
        blocks
represents n d used dev blk nz = elim (keys_cases 0 dev 12 blk) [
  | inl (p, q) ↦
      inl (0, record cached { b_count = n; b_dirty = d }, refl, p, q, used, ap₂ blocks p q)
  | inr ne ↦ inr (other-IsUncached n d dev blk ne, refl)
]

alone-IsUnique : IsUnique (cached ∷ spare_buffer ∷ [])
alone-IsUnique zero zero b c g k ed eb nz = refl
alone-IsUnique zero (suc zero) b c g k ed eb nz = ground arith
alone-IsUnique zero (suc (suc j)) b c g k ed eb nz = ground arith
alone-IsUnique (suc zero) zero b c g k ed eb nz = ground arith
alone-IsUnique (suc zero) (suc zero) b c g k ed eb nz = refl
alone-IsUnique (suc zero) (suc (suc j)) b c g k ed eb nz = ground arith
alone-IsUnique (suc (suc i)) j b c g k ed eb nz = ground arith

slot_of_13 : slot 0 13 (cached ∷ spare_buffer ∷ []) ≡ some 1
unfolding slot find_index caches unused
slot_of_13 = refl

bread-Represents_example :
    (t : Kernel host) × (b : Buffer) × (bread host 0 13 system ≡ ok (1, t))
    × (get_elem? t.buffers 1 ≡ some b)
    × (b.b_data ≡ blocks 0 13)
    × Represents host t blocks
    × IsUnique t.buffers
bread-Represents_example =
    bread-Represents host 0 13 system 1 blocks (represents 1 0 (omega arith)) alone-IsUnique
      (omega arith) slot_of_13

abbrev shared : Kernel host
shared = record system { buffers = record cached { b_count = 2; b_dirty = 1 } ∷ spare_buffer ∷ [] }

bwrite-Represents_example :
    (t : Kernel host) × (bwrite host 0 shared ≡ ok (0, t)) × Represents host t blocks
bwrite-Represents_example =
    bwrite-Represents host shared 0 (record cached { b_count = 2; b_dirty = 1 }) blocks
      host-IsLawful (represents 2 1 (omega arith)) refl (omega arith) (omega arith)
