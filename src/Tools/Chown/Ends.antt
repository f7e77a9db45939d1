-- ===== src/Tools/Chown/Ends.antt =====
-- `chown` comes to an end.
use yaup.Base.{ℕ, ◌<◌, ◌≡◌}
use yaup.Kernel.Host.{Stat}
use yaup.Tools.Os.{Os, FilePath, gives}
use yaup.Tools.Program.{stat}
use yaup.Tools.Chown.{no_id}

-- The documented behaviour of a change of the owner that succeeds: `stat` gives the owner, if it is not
-- the -1 that leaves the owner as it is.
abbrev pub ChangesOwner : Os → Type 0
ChangesOwner o =
    (w w' : o.World) (path : FilePath) (owner group : ℕ)
    → owner < no_id
    → o.chown w path owner group ≡ gives w'
    → (st : Stat) × (o.stat w' path ≡ gives st) × (st.st_uid ≡ owner)
