-- ===== src/Tools/Nl.antt =====
-- busybox/nl.c
pub mod Numbers
use yaup.Base.{
  ltb, ℕ, zero, suc, ◌+◌, ◌-◌, ◌^◌, ◌%◌, Bool, true, false, ◌&&◌, Option, none, some, List, [], ◌∷◌,
  ◌++◌, length, drop, replicate, if◌then◌else◌, ◌==◌,
}
use yaup.Errno.{eisdir, einval}
use yaup.Kernel.Host.{Stat}
use yaup.Tools.Os.{Os, FilePath}
use yaup.Tools.Program.{Prog, Process, ◌>>=◌, ◌>>◌, pure, exits, faults, runs_on, put}
use yaup.Tools.Program.Args.{asks_help, for_files}
use yaup.Tools.Program.Print.{decimal_int}
use yaup.Tools.Program.Scan.{line_of, meets_end}
use yaup.Tools.Wc.{isblank}

-- The pointer moves before the character is tested: the first one is skipped, and the NUL is tested.
unfoldable pub is_blank : List ℕ → Bool
is_blank [] = true
is_blank (c ∷ []) = false
is_blank (c ∷ d ∷ line) = isblank d && is_blank (d ∷ line)

-- The string at the start of the bytes.
unfoldable pub c_string : List ℕ → List ℕ
c_string [] = []
c_string (c ∷ cs) = let rest = c_string cs in if c == 0 then [] else c ∷ rest

-- The string in the buffer after `getline`: at the end of the file, what it held.
unfoldable pub get_line : List ℕ → List ℕ → List ℕ
get_line [] held = held
get_line (c ∷ line) held = c_string (c ∷ line)

-- `%5d`
unfoldable pub decimal_5 : ℕ → List ℕ
decimal_5 n = let ds = decimal_int n in replicate (5 - length ds) 32 ++ ds

module _ {o : Os} where
  -- `while (!feof(fp))` for a number of rounds. `held` is the string in the line's buffer.
  -- `line_num` is an `int`: its overflow is a fault.
  unfoldable pub nl_loop : ℕ → ℕ → List ℕ → List ℕ → Prog (Process o) (Unit {0})
  nl_loop zero line_num held fp = runs_on
  nl_loop (suc fuel) line_num held fp =
      let n = suc (length fp) in
      let line = line_of n fp in
      let held' = get_line line held in
      let blank = is_blank held' in
      let num = line_num + 1 in
      let rest = nl_loop fuel (if blank then line_num else num) held' (drop (length line) fp) in
      (if blank
        then put (10 ∷ [])
        else (if ltb num (2 ^ 31) then put (decimal_5 num ++ (32 ∷ 32 ∷ held')) else faults))
      >> (if meets_end n fp then pure tt else rest)

  -- `*buff` is a pointer that was never set. It works only if the memory happens to hold a null
  -- pointer; then `fresh` is the string that the first buffer holds.
  unfoldable pub nl : Option (List ℕ) → List ℕ → Prog (Process o) (Unit {0})
  nl none fp = faults
  nl (some fresh) fp = nl_loop (suc (suc (length fp))) 0 fresh fp

module _ (o : Os) where
  -- Without an argument nothing is read.
  unfoldable pub nl_main : (FilePath → Option (List ℕ)) → Stat → List FilePath → Prog (Process o) ℕ
  nl_main memory st args =
      if asks_help args
      then exits einval
      else for_files o eisdir (λ st' name fp. nl (memory name) fp) st args >> pure 0
