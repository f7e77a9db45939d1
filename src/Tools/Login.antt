-- ===== src/Tools/Login.antt =====
-- busybox/login.c and login.h. A file is what is left of it and whether its end was met.
pub mod Match
pub mod Ends
use yaup.Base.{
  ℕ, zero, suc, ◌+◌, ◌-◌, Bool, true, false, ◌||◌, List, [], ◌∷◌, ◌++◌, length, drop, if◌then◌else◌,
  ◌==◌, leb, Run, ok, panic, fault, out_of_fuel,
}
use yaup.Shell.Text.{text, strcmp_eq}
use yaup.Tools.Os.{Os, FilePath}
use yaup.Tools.Program.{
  Prog, Process, done, faulted, ◌>>=◌, ◌>>◌, pure, faults, runs_on, err, open_read, bytes_of, put,
  gets,
}
use yaup.Tools.Program.Print.{run}
use yaup.Tools.Program.Scan.{then_run, push, line_of, meets_end, fill_line, skip_space, word_of}

abbrev pub max_user_name : ℕ
max_user_name = 32

abbrev pub max_user_line : ℕ
max_user_line = 128

abbrev pub max_passwd : ℕ
max_passwd = 27

abbrev pub max_shdw_line : ℕ
max_shdw_line = 128

-- `while (line[i] != ':') user[i] = line[i];` and the NUL behind: the buffer afterwards. A place past
-- the line or past the buffer is a fault.
unfoldable pub copy_user : List ℕ → List ℕ → Run (List ℕ)
copy_user [] user = fault
copy_user (c ∷ line) [] = fault
copy_user (c ∷ line) (u ∷ user) =
    let rest = push c (copy_user line user) in if c == 58 then ok (0 ∷ user) else rest

-- What the search for a user ends with: whether the user was found, and the line and the buffer.
pub record Search : Type 0 where
  pub found : Bool
  pub line : List ℕ
  pub name : List ℕ

-- `while (!feof(passwd) && !found)`
unfoldable pub user_loop : ℕ → List ℕ → Search → Bool → List ℕ → Run Search
user_loop zero username s eof passwd = if eof || s.found then ok s else out_of_fuel
user_loop (suc fuel) username s eof passwd =
    let n = max_user_line - 1 in
    let line = fill_line (line_of n passwd) s.line in
    let round = then_run (copy_user line s.name) (λ user.
      then_run (strcmp_eq user username) (λ same.
        user_loop fuel username (record { found = same; line = line; name = user })
          (meets_end n passwd) (drop (length (line_of n passwd)) passwd))) in
    if eof || s.found then ok s else round

-- `line` and `user` are what the allocated memory holds at first. A round for each byte of the file
-- and one more are enough.
unfoldable pub get_user_line : List ℕ → List ℕ → List ℕ → List ℕ → Run Search
get_user_line line user passwd username =
    user_loop (suc (length passwd)) username (record { found = false; line = line; name = user })
      false passwd

unfoldable pub has_password : List ℕ → Run Bool
has_password [] = fault
has_password (c ∷ line) =
    let rest = has_password line in
    if c == 58 then elim line [ [] ↦ fault | d ∷ ds ↦ ok (d == 120) ] else rest

-- `while (line[i] != ':' && i < MAX_USER_NAME)` with `n` characters to go, and the NUL behind.
unfoldable pub copy_name : ℕ → List ℕ → List ℕ → Run (List ℕ)
copy_name n [] buff = fault
copy_name n (c ∷ line) [] = fault
copy_name zero (c ∷ line) (b ∷ buff) = ok (0 ∷ buff)
copy_name (suc n) (c ∷ line) (b ∷ buff) =
    let rest = push c (copy_name n line buff) in if c == 58 then ok (0 ∷ buff) else rest

-- `while (line[i] != ':') buff[i] = line[i];`
unfoldable pub copy_field : List ℕ → List ℕ → Run (List ℕ)
copy_field [] buff = fault
copy_field (c ∷ line) [] = if c == 58 then ok [] else fault
copy_field (c ∷ line) (b ∷ buff) =
    let rest = push c (copy_field line buff) in if c == 58 then ok (b ∷ buff) else rest

-- `while (!feof(shadow) && !found)`
unfoldable pub shadow_loop : ℕ → List ℕ → Search → Bool → List ℕ → Run Search
shadow_loop zero username s eof shadow = if eof || s.found then ok s else out_of_fuel
shadow_loop (suc fuel) username s eof shadow =
    let n = max_shdw_line - 1 in
    let line = fill_line (line_of n shadow) s.line in
    let round = then_run (copy_name max_user_name line s.name) (λ buff.
      then_run (strcmp_eq buff username) (λ same.
        shadow_loop fuel username (record { found = same; line = line; name = buff })
          (meets_end n shadow) (drop (length (line_of n shadow)) shadow))) in
    if eof || s.found then ok s else round

-- The search of `match`. `line` and `buff` are what the allocated memory holds at first.
unfoldable pub shadow_search : List ℕ → List ℕ → List ℕ → List ℕ → Run Search
shadow_search line buff shadow username =
    shadow_loop (suc (length shadow)) username (record { found = false; line = line; name = buff })
      false shadow

-- The end of `match`.
unfoldable pub compare_field : List ℕ → Search → Run Bool
compare_field password s =
    if s.found
    then then_run (copy_field s.line s.name) (λ buff. strcmp_eq buff password)
    else ok true

unfoldable pub match : List ℕ → List ℕ → List ℕ → List ℕ → List ℕ → Run Bool
match line buff shadow username password =
    then_run (shadow_search line buff shadow username) (compare_field password)

-- `strcpy` of each value, in the order of WHO, UID, GID, HOME, SHELL, PWD and PATH; the null pointer
-- behind them ends the list.
unfoldable pub set_environment : List ℕ → List (List ℕ)
set_environment user_line =
    text "user"
    ∷ text "1000"
    ∷ text "100"
    ∷ text "/home"
    ∷ text "/bin/sh"
    ∷ text "/"
    ∷ text "/bin:/sbin:/usr/bin:/usr/sbin"
    ∷ []

-- What the memory holds that `main`, `get_user_line` and `match` allocate.
pub record Memory : Type 0 where
  pub passwd_mem : List ℕ
  pub line_mem : List ℕ
  pub user_mem : List ℕ
  pub shadow_mem : List ℕ
  pub buff_mem : List ℕ

-- What a round of the loop of `main` ends with: the next round, or `execve` with an environment.
pub data Login : Type 0 where
  again : Login
  execs : List (List ℕ) → Login

module _ {o : Os} where
  -- `fscanf(stdin, "%s", …)` into `size` bytes, which keep what they held at the end of the input.
  unfoldable pub scan_word : ℕ → List ℕ → Prog (Process o) (List ℕ)
  scan_word size kept s =
      let word = word_of (skip_space s.stdin) in
      let left = drop (length word) (skip_space s.stdin) in
      let t = record s { stdin = left } in
      if leb size (length word)
      then faulted
      else done (if leb (length word) 0 then kept else word) t

  unfoldable pub open_bytes : FilePath → Prog (Process o) (List ℕ)
  open_bytes path = open_read path >>= λ opened. if opened then bytes_of path else err

  unfoldable pub check_password : Memory → List ℕ → List ℕ → Prog (Process o) Bool
  check_password m username user_line = run (has_password user_line) >>= λ asked.
      if asked
      then (do
        put (text "(password): ")
        passwd ← scan_word max_passwd m.passwd_mem
        shadow ← open_bytes (text "/etc/shadow")
        run (match m.shadow_mem m.buff_mem shadow username passwd))
      else pure true

  -- A round for the user whose name was read.
  unfoldable pub login_user : Memory → List ℕ → Prog (Process o) Login
  login_user m username = do
    passwd ← open_bytes (text "/etc/passwd")
    s ← run (get_user_line m.line_mem m.user_mem passwd username)
    if s.found
        then (check_password m username s.line >>= λ right.
            if right then pure (execs (set_environment s.line)) else pure again)
        else pure again

module _ (o : Os) where
  -- The rounds up to the first that reaches `execve`. `username` is what its memory holds.
  unfoldable pub login_main : ℕ → Memory → List ℕ → Prog (Process o) (List (List ℕ))
  login_main zero m username = runs_on
  login_main (suc fuel) m username = do
    put (text "(username): ")
    name ← scan_word max_user_name username
    result ← login_user m name
    elim result [ again ↦ login_main fuel m name | execs envp ↦ pure envp ]
