-- ===== src/Tools/Cat.antt =====
-- busybox/cat.c
pub mod Concat
use yaup.Base.{ℕ, List, [], ◌∷◌, if◌then◌else◌}
use yaup.Errno.{eisdir, einval}
use yaup.Kernel.Host.{Stat}
use yaup.Tools.Os.{Os, FilePath}
use yaup.Tools.Program.{Prog, Process, ◌>>=◌, ◌>>◌, pure, exits, put, input}
use yaup.Tools.Program.Args.{asks_help, for_files}

module _ {o : Os} where
  unfoldable pub cat : List ℕ → Prog (Process o) (Unit {0})
  cat [] = pure tt
  cat (c ∷ fp) = put (c ∷ []) >> cat fp

-- `argv` without the name of the program. `st` is what the structure holds at first.
module _ (o : Os) where
  unfoldable pub cat_main : Stat → List FilePath → Prog (Process o) ℕ
  cat_main st [] = do fp ← input; cat fp; pure 0
  cat_main st (a ∷ args) =
      if asks_help (a ∷ args)
      then exits einval
      else for_files o eisdir (λ st' name fp. cat fp) st (a ∷ args) >> pure 0
