-- ===== src/Tools/Od.antt =====
-- busybox/od.c
pub mod Dump
use yaup.Base.{
  ℕ, zero, suc, ◌+◌, ◌-◌, ◌/◌, ◌%◌, ◌^◌, List, [], ◌∷◌, ◌++◌, length, replicate, if◌then◌else◌,
  ◌==◌, ltb,
}
use yaup.Errno.{eisdir}
use yaup.Kernel.Host.{Stat}
use yaup.Tools.Os.{Os, FilePath}
use yaup.Tools.Program.{Prog, Process, ◌>>◌, pure, put}
use yaup.Tools.Program.Args.{for_files}

-- The digits of `%o`: eleven are enough for 32 bits.
unfoldable pub octal_digits : ℕ → ℕ → List ℕ → List ℕ
octal_digits zero n tail = tail
octal_digits (suc fuel) n tail =
    let rest = octal_digits fuel (n / 8) ((48 + n % 8) ∷ tail) in
    if ltb n 8 then (48 + n) ∷ tail else rest

-- `%0<width>o`
unfoldable pub octal : ℕ → ℕ → List ℕ
octal width n = let ds = octal_digits 11 n [] in replicate (width - length ds) 48 ++ ds

-- What is printed from a byte on.
unfoldable pub od_loop : List ℕ → ℕ → ℕ → List ℕ
od_loop [] cnt offset = []
od_loop (c ∷ fp) cnt offset =
    let offset' = (offset + 16) % 2 ^ 32 in
    let same_row = od_loop fp (cnt + 1) offset in
    let new_row = od_loop fp 0 offset' in
    octal 6 c
    ++ (32 ∷ (if cnt + 1 == 8 then 10 ∷ (octal 7 offset' ++ (32 ∷ new_row)) else same_row))

unfoldable pub od : List ℕ → List ℕ
od fp = octal 7 0 ++ od_loop fp 0 0

-- `print_help` of this program comes back, and there is nothing to do then.
module _ (o : Os) where
  unfoldable pub od_main : Stat → List FilePath → Prog (Process o) ℕ
  od_main st args = for_files o eisdir (λ st' name fp. put (od fp)) st args >> pure 0
