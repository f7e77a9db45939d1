-- ===== src/Tools/Chmod/Changes.antt =====
-- The mode that `chmod` gives to a file.
use yaup.Base.{ℕ, ◌≡◌, ◌≢◌, ==_ne, false, [], ◌∷◌, arith}
use yaup.Kernel.Host.{Stat}
use yaup.Tools.Os.{Os, FilePath, gives}
use yaup.Tools.Program.{Process, done}
use yaup.Tools.Program.Args.{is_option}
use yaup.Tools.Chmod.{no_mode, chmod_loop, chmod_main}
use yaup.Tools.Chmod.Refuses.{parse_mode-no_mode}

-- Whatever the mode that is asked for, `chmod` without `-r` of one file returns 0 after a call of
-- `chmod` with -1, if the file does not have that mode and the call succeeds.
pub chmod_main-no_mode :
    (o : Os) (depth : ℕ) (st st' : Stat) (mode a : FilePath) (s : Process o) (w : o.World)
    → is_option 114 mode ≡ false
    → o.stat s.world a ≡ gives st'
    → st'.st_mode ≢ no_mode
    → o.chmod s.world a no_mode ≡ gives w
    → chmod_main o depth st (mode ∷ a ∷ []) s ≡ done 0 (record s { world = w })
unfolding chmod_main chmod_loop
chmod_main-no_mode o depth st st' mode a s w plain found other changed =
    ground (arith, parse_mode-no_mode mode, ==_ne st'.st_mode no_mode other)
