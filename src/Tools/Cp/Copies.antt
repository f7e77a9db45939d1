-- ===== src/Tools/Cp/Copies.antt =====
-- What `cp` of a file to a file leaves.
use yaup.Base.{ℕ, ◌≡◌, ap, ◌∙◌, false, List, [], ◌∷◌, ◌++◌, some, arith}
use yaup.Kernel.Host.{Stat}
use yaup.Tools.Os.{Os, IsLawful, FilePath, gives}
use yaup.Tools.Program.{Process, done}
use yaup.Tools.Program.Walk.{option_r}
use yaup.Tools.Cp.{file_to_file, cp_main}

-- A source that opens and a destination that can be written to: what is in the way of the copy.
abbrev pub Opens : (o : Os) → o.World → FilePath → FilePath → o.World → Type 0
Opens o w src dst w' = (o.open_read w src ≡ gives tt) × (o.open_write w dst ≡ gives w')

module _ (o : Os) (lawful : IsLawful o) where
  file_to_file-append :
      (src dst : FilePath) (s : Process o) (w : o.World)
      → Opens o s.world src dst w
      → file_to_file {o = o} src dst s
        ≡ done tt (record s { world = o.append w dst (o.bytes w src) })
  unfolding file_to_file
  file_to_file-append src dst s w (r, c) = ground arith

  -- What a file holds after the copy.
  copied :
      (src dst : FilePath) (w w' : o.World)
      → ¬ o.Aliases w dst src
      → o.open_write w dst ≡ gives w'
      → o.bytes (o.append w' dst (o.bytes w' src)) dst ≡ o.bytes w src
  copied src dst w w' apart c =
      lawful.bytes-append w' dst (o.bytes w' src)
      ∙ ap (λ cs. cs ++ o.bytes w' src)
          (lawful.bytes-open_write w dst dst w' (lawful.aliases_refl w dst) c)
      ∙ (lawful.bytes-open_write_other w dst src w' apart c).0

  kept :
      (dst other : FilePath) (w w' : o.World) (cs : List ℕ)
      → ¬ o.Aliases w dst other
      → o.open_write w dst ≡ gives w'
      → o.bytes (o.append w' dst cs) other ≡ o.bytes w other
  kept dst other w w' cs apart c =
      let (same, apart') = lawful.bytes-open_write_other w dst other w' apart c in
      lawful.bytes-append_other w' dst other cs apart' ∙ same

-- With two names that are no options, of which the first opens for reading and the second for
-- writing, `cp` returns 0. If they do not name one file, the second file then holds what the first
-- one held, and every file that the second does not name holds what it did, the first included.
pub cp_main-bytes :
    (o : Os) (fuel : ℕ) (st : Stat) (src dst : FilePath) (s : Process o) (w : o.World)
    → IsLawful o
    → option_r src ≡ some false
    → Opens o s.world src dst w
    → ¬ o.Aliases s.world dst src
    → (t : Process o) × (cp_main o fuel st (src ∷ dst ∷ []) s ≡ done 0 t)
      × (o.bytes t.world dst ≡ o.bytes s.world src)
      × ((other : FilePath)
          → ¬ o.Aliases s.world dst other
          → o.bytes t.world other ≡ o.bytes s.world other)
unfolding cp_main
cp_main-bytes o fuel st src dst s w lawful plain opens apart = (
  record s { world = o.append w dst (o.bytes w src) },
  ground (arith, file_to_file-append o lawful src dst s w opens),
  copied o lawful src dst s.world w apart opens.1,
  λ other apart'. kept o lawful dst other s.world w (o.bytes w src) apart' opens.1,
)

-- If the two names name one file, which opens for reading and writing, `cp` returns 0 and leaves it
-- empty.
pub cp_main-same :
    (o : Os) (fuel : ℕ) (st : Stat) (src dst : FilePath) (s : Process o) (w : o.World)
    → IsLawful o
    → option_r src ≡ some false
    → Opens o s.world src dst w
    → o.Aliases s.world dst src
    → (t : Process o) × (cp_main o fuel st (src ∷ dst ∷ []) s ≡ done 0 t)
      × (o.bytes t.world dst ≡ [])
unfolding cp_main
cp_main-same o fuel st src dst s w lawful plain opens same = (
  record s { world = o.append w dst (o.bytes w src) },
  ground (arith, file_to_file-append o lawful src dst s w opens),
  lawful.bytes-append w dst (o.bytes w src)
      ∙ ap (λ cs. cs ++ o.bytes w src)
          (lawful.bytes-open_write s.world dst dst w (lawful.aliases_refl s.world dst) opens.1)
      ∙ lawful.bytes-open_write s.world dst src w same opens.1,
)
