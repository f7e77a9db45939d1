-- ===== src/Tools/Cksum/Main.antt =====
-- `cksum` of files.
use yaup.Base.{ℕ, ◌≡◌, ◌≤◌, List, ◌∷◌, length, arith}
use yaup.Tools.Os.{Os, FilePath, gives}
use yaup.Tools.Program.{Process, faulted}
use yaup.Tools.Cksum.{cksum_files, cksum_main}
use yaup.Tools.Cksum.Blocks.{crc32-long}

-- Whatever the other arguments, a first file of eight bytes or more that opens makes `cksum` read past
-- its buffer of eight bytes: a fault.
pub cksum_main-faulted :
    (o : Os) (buf : FilePath → List ℕ) (a : FilePath) (args : List FilePath) (s : Process o)
    → length (buf a) ≡ 8
    → o.open_read s.world a ≡ gives tt
    → 8 ≤ length (o.bytes s.world a)
    → cksum_main o buf (a ∷ args) s ≡ faulted
unfolding cksum_main cksum_files
cksum_main-faulted o buf a args s eight opens long =
    ground (arith, crc32-long (o.bytes s.world a) (buf a) eight long)
