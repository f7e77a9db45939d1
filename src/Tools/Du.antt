-- ===== src/Tools/Du.antt =====
-- busybox/du.c. Sizes are unsigned in 64 bits, and a `double` is a number that 53 bits hold.
pub mod Rounds
use yaup.Base.{
  ℕ, zero, suc, ◌+◌, ◌-◌, ◌*◌, ◌/◌, ◌%◌, ◌^◌, Bool, true, false, List, [], ◌∷◌, ◌++◌, if◌then◌else◌,
  ◌==◌, leb, ltb,
}
use yaup.Errno.{einval}
use yaup.Shell.Text.{text, decimal}
use yaup.Kernel.Host.{Stat}
use yaup.Tools.Os.{Os, FilePath, Entry}
use yaup.Tools.Program.{
  Prog, Process, ◌>>=◌, ◌>>◌, pure, exits, runs_on, err, stat, opendir, chdir, put, s_isreg,
  s_isdir,
}
use yaup.Tools.Program.Walk.{is_dots}

-- The quotient that is nearest, and the even one of two.
unfoldable pub round_even : ℕ → ℕ → ℕ
round_even n d =
    let q = n / d in
    let r = 2 * (n % d) in if ltb r d then q else (if ltb d r then q + 1 else q + q % 2)

-- The `double` of a number of 64 bits: the last bits are rounded away, at most eleven.
unfoldable pub to_double : ℕ → ℕ → ℕ
to_double zero n = n
to_double (suc more) n =
    let smaller = to_double more n in
    let unit = 2 ^ suc more in if ltb n (2 ^ (53 + more)) then smaller else round_even n unit * unit

-- `%.1f` of a number of tenths.
unfoldable pub put_tenths : ℕ → List ℕ
put_tenths n = decimal (n / 10) ++ (46 ∷ ((48 + n % 10) ∷ []))

-- The size with its unit. Halves of bits are exact in a `double`.
unfoldable pub size_text : ℕ → List ℕ
size_text size =
    if leb size 1024
    then put_tenths (size * 10) ++ (66 ∷ [])
    else (if leb size 102400
        then put_tenths (round_even (size * 10) 1024) ++ (75 ∷ [])
        else put_tenths (round_even (size * 10) (1024 * 1024)) ++ (77 ∷ []))

unfoldable pub du_line : ℕ → FilePath → List ℕ
du_line size name = size_text (to_double 11 size) ++ (text " \t " ++ (name ++ (10 ∷ [])))

module _ {o : Os} where
  -- The loop over the entries with `walk` for the call on a directory in it. `st` is what the
  -- structure of this call holds. The size of `path` is added for each entry.
  unfoldable pub du_loop :
      (FilePath → Prog (Process o) ℕ) → FilePath → List Entry → Stat → ℕ → Prog (Process o) ℕ
  du_loop walk path [] st dsize = pure dsize
  du_loop walk path (d ∷ ds) st dsize =
      if is_dots d.d_name
      then du_loop walk path ds st dsize
      else ((if d.is_dir then walk d.d_name else pure 0) >>= λ inner.
          stat path st >>= λ (found, st').
          du_loop walk path ds st' ((dsize + inner + st'.st_size) % 2 ^ 64))

  -- `fuel` bounds the depth of the directories; `st` is what the structures of the calls hold at
  -- first.
  unfoldable pub dir_du : ℕ → Stat → FilePath → Prog (Process o) ℕ
  dir_du zero st path = runs_on
  dir_du (suc fuel) st path = opendir path >>= λ (opened, ds).
      if opened
      then (chdir path >> du_loop (dir_du fuel st) path ds st 0 >>= λ dsize.
          chdir (text "..") >> pure dsize)
      else pure (2 ^ 64 - 1)

module _ (o : Os) where
  unfoldable pub du_main : ℕ → Stat → Stat → List FilePath → Prog (Process o) ℕ
  du_main fuel inner st [] = pure 0
  du_main fuel inner st (a ∷ args) = stat a st >>= λ (found, st').
      if found
      then (if s_isreg (st'.st_mode) then put (du_line st'.st_size a) else pure tt)
        >> (if s_isdir (st'.st_mode)
            then (dir_du fuel inner a >>= λ size. put (du_line size a))
            else pure tt)
        >> du_main fuel inner st' args
      else err
