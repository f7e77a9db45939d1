-- ===== src/Tools/Program/Args.antt =====
-- The loop over the arguments that the programs share: each must be a regular file that opens.
use yaup.Base.{
  ℕ, ◌%◌, ◌≡◌, sym, ap, Bool, true, false, List, [], ◌∷◌, ◌++◌, append-nil, append_assoc, get_or,
  ◌&&◌, if◌then◌else◌, ◌==◌, arith,
}
use yaup.Kernel.Host.{Stat}
use yaup.Tools.Os.{Os, FilePath, gives, fails}
use yaup.Tools.Program.{
  Prog, Process, done, exited, ◌>>=◌, ◌>>◌, pure, exits, err, stat, open_read, bytes_of, s_isreg,
}

-- `argv[1][0] == '-' && argv[1][1] == c`
unfoldable pub is_option : ℕ → FilePath → Bool
is_option c a = (get_or a 0 0 == 45) && (get_or a 1 0 == c)

-- `argc == 2` and the argument is the option `-h`.
unfoldable pub asks_help : List FilePath → Bool
asks_help (a ∷ []) = is_option 104 a
asks_help args = false

module _ (o : Os) where
  -- `code` is the status for a file that is not regular. `st` holds what is in the structure
  -- before: a failed call of `stat` leaves it.
  unfoldable pub for_files :
      ℕ
      → (Stat → FilePath → List ℕ → Prog (Process o) (Unit {0}))
      → Stat
      → List FilePath
      → Prog (Process o) (Unit {0})
  for_files code body st [] = pure tt
  for_files code body st (a ∷ args) = stat a st >>= λ r.
      if s_isreg (r.1.st_mode)
      then (open_read a >>= λ opened.
          if opened
          then (bytes_of a >>= λ fp. body r.1 a fp >> for_files code body r.1 args)
          else err)
      else exits code

  -- A regular file that opens.
  pub record IsFile (w : o.World) (a : FilePath) : Type 0 where
    pub st : Stat
    pub found : o.stat w a ≡ gives st
    pub regular : s_isreg (st.st_mode) ≡ true
    pub opens : o.open_read w a ≡ gives tt

  abbrev pub AreFiles : o.World → List FilePath → Type 0
  AreFiles w [] = Unit {0}
  AreFiles w (a ∷ args) = IsFile w a × AreFiles w args

  -- The bytes of each file fulfil `P`.
  abbrev pub HaveBytes : (List ℕ → Type 0) → o.World → List FilePath → Type 0
  HaveBytes P w [] = Unit {0}
  HaveBytes P w (a ∷ args) = P (o.bytes w a) × HaveBytes P w args

  pub any-HaveBytes : (w : o.World) (args : List FilePath) → HaveBytes (λ fp. Unit {0}) w args
  any-HaveBytes w [] = tt
  any-HaveBytes w (a ∷ args) = (tt, any-HaveBytes w args)

  -- What `f` makes of each file, one after the other.
  abbrev pub outputs : (FilePath → List ℕ → List ℕ) → o.World → List FilePath → List ℕ
  outputs f w [] = []
  outputs f w (a ∷ args) = f a (o.bytes w a) ++ outputs f w args

  abbrev pub printing : Process o → List ℕ → Process o
  printing s cs = record s { stdout = s.stdout ++ cs }

  module _ (code : ℕ) (body : Stat → FilePath → List ℕ → Prog (Process o) (Unit {0}))
      (f : FilePath → List ℕ → List ℕ) (P : List ℕ → Type 0)
      (prints : (st : Stat) (a : FilePath) (fp : List ℕ) (s : Process o)
        → P fp
        → body st a fp s ≡ done tt (printing s (f a fp))) where
    -- The files are processed one after the other, and the loop goes on.
    pub for_files-append :
        (args rest : List FilePath) (st : Stat) (s : Process o)
        → AreFiles s.world args
        → HaveBytes P s.world args
        → (st' : Stat) × (for_files code body st (args ++ rest) s
            ≡ for_files code body st' rest (printing s (outputs f s.world args)))
    unfolding for_files
    for_files-append [] rest st s all fits = (
      st,
      ap (λ cs. for_files code body st rest (record s { stdout = cs })) (sym (append-nil s.stdout)),
    )
    for_files-append (a ∷ args) rest st s (i, all) (fit, fits) =
        let out = f a (o.bytes s.world a) in
        let (st', e) = for_files-append args rest i.st (printing s out) all fits in
        (
          st',
          ground (
            arith,
            i.found,
            i.regular,
            i.opens,
            prints i.st a (o.bytes s.world a) s fit,
            e,
            append_assoc s.stdout out (outputs f s.world args),
          ),
        )

    pub for_files-outputs :
        (args : List FilePath) (st : Stat) (s : Process o)
        → AreFiles s.world args
        → HaveBytes P s.world args
        → for_files code body st args s ≡ done tt (printing s (outputs f s.world args))
    unfolding for_files
    for_files-outputs args st s all fits =
        let (st', e) = for_files-append args [] st s all fits in ground (arith, e, append-nil args)

    -- The first file that is not regular ends the program, after the output of those in front of it.
    pub for_files_irregular :
        (args rest : List FilePath) (a : FilePath) (st st' : Stat) (s : Process o)
        → AreFiles s.world args
        → HaveBytes P s.world args
        → o.stat s.world a ≡ gives st'
        → s_isreg (st'.st_mode) ≡ false
        → for_files code body st (args ++ (a ∷ rest)) s
          ≡ exited (code % 256) (printing s (outputs f s.world args))
    unfolding for_files
    for_files_irregular args rest a st st' s all fits found irregular =
        let (st'', e) = for_files-append args (a ∷ rest) st s all fits in ground (arith, e)

    -- So does the first that cannot be opened, with the error number.
    pub for_files_unopened :
        (args rest : List FilePath) (a : FilePath) (st st' : Stat) (e : ℕ) (s : Process o)
        → AreFiles s.world args
        → HaveBytes P s.world args
        → o.stat s.world a ≡ gives st'
        → s_isreg (st'.st_mode) ≡ true
        → o.open_read s.world a ≡ fails e
        → for_files code body st (args ++ (a ∷ rest)) s
          ≡ exited (e % 256) (record (printing s (outputs f s.world args)) { errno = e })
    unfolding for_files
    for_files_unopened args rest a st st' e s all fits found regular closed =
        let (st'', e') = for_files-append args (a ∷ rest) st s all fits in ground (arith, e')
