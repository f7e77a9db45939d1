-- ===== src/Tools/Rm.antt =====
-- busybox/rm.c and busybox/mkdir.c
use yaup.Base.{
  ℕ, zero, suc, ◌+◌, ◌-◌, ◌*◌, ◌%◌, ◌^◌, Bool, true, false, Option, none, some, List, [], ◌∷◌, ◌++◌,
  if◌then◌else◌, ◌==◌,
}
use yaup.Errno.{einval}
use yaup.Shell.Text.{text, decimal}
use yaup.Kernel.Host.{Stat}
use yaup.Tools.Os.{Os, FilePath}
use yaup.Tools.Program.{
  Prog, Process, ◌>>=◌, ◌>>◌, pure, exits, runs_on, err, call, stat, open_read, bytes_of, opendir,
  gets, s_isreg, s_isdir,
}
use yaup.Tools.Program.Args.{is_option}
use yaup.Tools.Program.Walk.{option_r, each_entry, if_more}

module _ {o : Os} where
  -- `fuel` bounds the depth. The result says whether it is 0 and not -1.
  unfoldable pub rm_dir : ℕ → FilePath → Prog (Process o) Bool
  rm_dir zero root = runs_on
  rm_dir (suc fuel) root = opendir root >>= λ (opened, ds).
      if opened
      then each_entry
          (λ d. (if d.is_dir then rm_dir fuel d.d_name else pure true) >>= λ more.
            if_more more (call (λ w. o.remove w d.d_name)))
          ds
      else pure false

  -- One argument.
  unfoldable pub rm_file : Stat → FilePath → Prog (Process o) (Unit {0})
  rm_file st a =
      if s_isreg (st.st_mode)
      then (call (λ w. o.remove w a) >>= λ removed. if removed then pure tt else err)
      else pure tt

  unfoldable pub rm_tree : ℕ → Bool → Stat → FilePath → Prog (Process o) (Unit {0})
  rm_tree fuel rflag st a =
      if s_isdir (st.st_mode)
      then (if rflag
          then (rm_dir fuel a >>= λ removed. if removed then pure tt else err)
          else exits einval)
      else pure tt

  unfoldable pub rm_args : ℕ → Bool → Stat → List FilePath → Prog (Process o) ℕ
  rm_args fuel rflag st [] = pure 0
  rm_args fuel rflag st (a ∷ args) = stat a st >>= λ (found, st').
      rm_file st' a >> rm_tree fuel rflag st' a >> rm_args fuel rflag st' args

module _ (o : Os) where
  unfoldable pub rm_main : ℕ → Stat → List FilePath → Prog (Process o) ℕ
  rm_main fuel st [] = exits einval
  rm_main fuel st (a ∷ args) = elim (option_r a) [
    | none ↦ exits einval
    | some rflag ↦ rm_args fuel rflag st (if rflag then args else a ∷ args)
  ]

-- What is behind the first `c`, or none if there is none: then the loop of `fgetc` goes on at the end
-- of the file.
unfoldable pub after_char : ℕ → List ℕ → Option (List ℕ)
after_char c [] = none
after_char c (d ∷ ds) = let rest = after_char c ds in if d == c then some ds else rest

-- `mask*10 + (c - '0')` up to the newline
unfoldable pub mask_digits : List ℕ → ℕ → Option ℕ
mask_digits [] mask = none
mask_digits (c ∷ cs) mask =
    let rest = mask_digits cs ((mask * 10 + c + 2 ^ 32 - 48) % 2 ^ 32) in
    if c == 10 then some mask else rest

unfoldable pub mask_in : List ℕ → Option ℕ
mask_in status = elim (after_char 10 status) [
  | none ↦ none
  | some second ↦ elim (after_char 58 second) [ none ↦ none | some cs ↦ mask_digits cs 0 ]
]

abbrev pub status_path : ℕ → FilePath
status_path pid = text "/proc/" ++ (decimal pid ++ text "/status")

module _ {o : Os} where
  unfoldable pub get_mask : Prog (Process o) ℕ
  get_mask = gets (λ s. o.getpid s.world) >>= λ pid. open_read (status_path pid) >>= λ opened.
      if opened
      then (bytes_of (status_path pid) >>= λ status. elim (mask_in status) [
        | none ↦ runs_on
        | some mask ↦ pure mask
      ])
      else err

  -- `return -EINPROGRESS;`: negative, and without an error number.
  unfoldable pub mkdir_parent : FilePath → ℕ → Prog (Process o) Bool
  mkdir_parent path mask = pure false

  unfoldable pub mkdir_args : Bool → ℕ → List FilePath → Prog (Process o) ℕ
  mkdir_args pflag umask [] = pure 0
  mkdir_args pflag umask (a ∷ args) =
      (if pflag then call (λ w. o.mkdir w a umask) else mkdir_parent a umask) >>= λ made.
      if made then mkdir_args pflag umask args else err

module _ (o : Os) where
  unfoldable pub mkdir_main : List FilePath → Prog (Process o) ℕ
  mkdir_main args = get_mask >>= λ umask. elim args [
    | [] ↦ exits einval
    | a ∷ rest ↦
        if is_option 112 a then mkdir_args true umask rest else mkdir_args false umask (a ∷ rest)
  ]
