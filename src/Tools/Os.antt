-- ===== src/Tools/Os.antt =====
-- What the programs ask of the operating system: the calls of unistd.h, sys/stat.h and dirent.h and
-- the streams of stdio.h. A path is its bytes without the NUL.
use yaup.Base.{ℕ, ◌≡◌, ◌⊎◌, inl, inr, refl, Option, Bool, List, [], ◌++◌}
use yaup.Kernel.Host.{Stat}

abbrev pub FilePath : Type 0
FilePath = List ℕ

-- What a call gives, or the error number that it sets.
pub data Answer (A : Type 0) : Type 0 where
  gives : A → Answer A
  fails : ℕ → Answer A

pub Answer-cases :
    {A : Type 0} (r : Answer A) → ((a : A) × (r ≡ gives a)) ⊎ ((e : ℕ) × (r ≡ fails e))
Answer-cases (gives a) = inl (a, refl)
Answer-cases (fails e) = inr (e, refl)

-- `struct dirent`: the name, and whether `d_type` is DT_DIR or DT_REG.
pub record Entry : Type 0 where
  pub d_name : List ℕ
  pub is_dir : Bool
  pub is_reg : Bool

pub record Os : Type 1 where
  -- Files, directories and processes.
  pub World : Type 0
  pub stat : World → FilePath → Answer Stat
  -- `fopen(path, "r")`, and the bytes that the stream gives.
  pub open_read : World → FilePath → Answer (Unit {0})
  pub bytes : World → FilePath → List ℕ
  -- `fopen(path, "w")`, and what is written to the stream.
  pub open_write : World → FilePath → Answer World
  pub append : World → FilePath → List ℕ → World
  -- `opendir` with the entries that `readdir` gives.
  pub entries : World → FilePath → Answer (List Entry)
  pub chdir : World → FilePath → World
  pub chmod : World → FilePath → ℕ → Answer World
  pub chown : World → FilePath → ℕ → ℕ → Answer World
  pub rename : World → FilePath → FilePath → Answer World
  pub remove : World → FilePath → Answer World
  -- The second name of `link` may be a null pointer.
  pub link : World → FilePath → Option FilePath → Answer World
  pub symlink : World → FilePath → FilePath → Answer World
  pub mkdir : World → FilePath → ℕ → Answer World
  pub getenv : World → FilePath → Option (List ℕ)
  pub getpid : World → ℕ
  -- Two paths that name one file.
  pub Aliases : World → FilePath → FilePath → Type 0

-- The documented behaviour of streams: a file that is opened for writing is empty and grows by what is
-- written, and files of other names are left alone.
pub record IsLawful (o : Os) : Type 0 where
  pub bytes-open_write :
      (w : o.World) (p q : FilePath) (w' : o.World)
      → o.Aliases w p q
      → o.open_write w p ≡ gives w'
      → o.bytes w' q ≡ []
  pub bytes-open_write_other :
      (w : o.World) (p q : FilePath) (w' : o.World)
      → ¬ o.Aliases w p q
      → o.open_write w p ≡ gives w'
      → (o.bytes w' q ≡ o.bytes w q) × (¬ o.Aliases w' p q)
  pub bytes-append :
      (w : o.World) (p : FilePath) (cs : List ℕ) → o.bytes (o.append w p cs) p ≡ o.bytes w p ++ cs
  pub bytes-append_other :
      (w : o.World) (p q : FilePath) (cs : List ℕ)
      → ¬ o.Aliases w p q
      → o.bytes (o.append w p cs) q ≡ o.bytes w q
  pub aliases_refl : (w : o.World) (p : FilePath) → o.Aliases w p p
