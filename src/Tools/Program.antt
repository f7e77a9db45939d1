-- ===== src/Tools/Program.antt =====
-- A program of busybox as a function of the system and of its streams.
pub mod Args
pub mod Print
pub mod Walk
pub mod Scan
use yaup.Base.{
  ℕ, ◌+◌, ◌-◌, ◌%◌, ◌^◌, Bool, true, false, List, [], ◌∷◌, ◌++◌, bit_and, if◌then◌else◌, ◌==◌,
}
use yaup.Kernel.Host.{Stat}
use yaup.Kernel.Files.{ifmt, ifreg}
use yaup.Tools.Os.{Os, FilePath, Answer, gives, fails, Entry}

-- How a function of a program ends: it returns, it leaves the program with an exit status, its
-- behaviour is undefined, or it is still in a loop when its fuel is used up.
pub data Outcome (S A : Type 0) : Type 0 where
  done : A → S → Outcome S A
  exited : ℕ → S → Outcome S A
  faulted : Outcome S A
  running : Outcome S A

abbrev pub Prog : Type 0 → Type 0 → Type 0
Prog S A = S → Outcome S A

module _ {S A B : Type 0} where
  abbrev pub then_do : Outcome S A → (A → Prog S B) → Outcome S B
  then_do (done a s) k = k a s
  then_do (exited n s) k = exited n s
  then_do faulted k = faulted
  then_do running k = running

  infixl 5 ◌>>=◌ ◌>>◌
  abbrev pub ◌>>=◌ : Prog S A → (A → Prog S B) → Prog S B
  ◌>>=◌ m k s = then_do (m s) k

  abbrev pub ◌>>◌ : Prog S A → Prog S B → Prog S B
  ◌>>◌ m n s = then_do (m s) (λ _. n)

module _ {S A : Type 0} where
  abbrev pub pure : A → Prog S A
  pure a s = done a s

  -- `exit` and `errx`
  abbrev pub exits : ℕ → Prog S A
  exits n s = exited (n % 256) s

  abbrev pub faults : Prog S A
  faults s = faulted

  abbrev pub runs_on : Prog S A
  runs_on s = running

  abbrev pub gets : (S → A) → Prog S A
  gets f s = done (f s) s

-- The streams `stdin` and `stdout`, `errno`, and the rest of the system.
pub record Process (o : Os) : Type 0 where
  pub world : o.World
  pub errno : ℕ
  pub stdin : List ℕ
  pub stdout : List ℕ

module _ {o : Os} where
  abbrev pub put : List ℕ → Prog (Process o) (Unit {0})
  put cs s = done tt (record s { stdout = s.stdout ++ cs })

  -- What is left of `stdin`, read to its end.
  abbrev pub input : Prog (Process o) (List ℕ)
  input s = done s.stdin (record s { stdin = [] })

  -- `err(errno, …)`
  abbrev pub err : {A : Type 0} → Prog (Process o) A
  err s = exited (s.errno % 256) s

  -- A call that changes the system: whether it succeeds.
  abbrev pub called : Answer o.World → Prog (Process o) Bool
  called (gives w) s = done true (record s { world = w })
  called (fails e) s = done false (record s { errno = e })

  abbrev pub call : (o.World → Answer o.World) → Prog (Process o) Bool
  call f s = called (f s.world) s

  -- `stat(path, &st)`: the structure afterwards, and whether the call succeeds.
  abbrev pub stat_answer : Stat → Answer Stat → Prog (Process o) (Bool × Stat)
  stat_answer st (gives st') s = done (true, st') s
  stat_answer st (fails e) s = done (false, st) (record s { errno = e })

  abbrev pub stat : FilePath → Stat → Prog (Process o) (Bool × Stat)
  stat path st s = stat_answer st (o.stat s.world path) s

  -- `fopen(path, "r")`
  abbrev pub open_answer : Answer (Unit {0}) → Prog (Process o) Bool
  open_answer (gives u) s = done true s
  open_answer (fails e) s = done false (record s { errno = e })

  abbrev pub open_read : FilePath → Prog (Process o) Bool
  open_read path s = open_answer (o.open_read s.world path) s

  -- What the stream of a file gives until its end.
  abbrev pub bytes_of : FilePath → Prog (Process o) (List ℕ)
  bytes_of path s = done (o.bytes s.world path) s

  -- `opendir`: none of the entries when it fails.
  abbrev pub dir_answer : Answer (List Entry) → Prog (Process o) (Bool × List Entry)
  dir_answer (gives ds) s = done (true, ds) s
  dir_answer (fails e) s = done (false, []) (record s { errno = e })

  abbrev pub opendir : FilePath → Prog (Process o) (Bool × List Entry)
  opendir path s = dir_answer (o.entries s.world path) s

  abbrev pub chdir : FilePath → Prog (Process o) (Unit {0})
  chdir path s = done tt (record s { world = o.chdir s.world path })

abbrev pub ifdir : ℕ
ifdir = 0o040000

-- The macros S_ISREG and S_ISDIR.
unfoldable pub s_isreg : ℕ → Bool
s_isreg m = bit_and m ifmt == ifreg

unfoldable pub s_isdir : ℕ → Bool
s_isdir m = bit_and m ifmt == ifdir
