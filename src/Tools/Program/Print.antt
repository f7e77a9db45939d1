-- ===== src/Tools/Program/Print.antt =====
-- Numbers of type `int`, and what `fprintf` prints for `%d`.
use yaup.Base.{ℕ, ◌+◌, ◌-◌, ◌^◌, List, ◌∷◌, if◌then◌else◌, ltb, Run, ok, panic, fault, out_of_fuel}
use yaup.Shell.Text.{decimal}
use yaup.Tools.Program.{Prog, done, faulted, running}

-- An `int` is given modulo 2 ^ 32.
unfoldable pub decimal_int : ℕ → List ℕ
decimal_int n = if ltb n (2 ^ 31) then decimal n else 45 ∷ decimal (2 ^ 32 - n)

-- `n++` on an `int` that is not negative: an overflow is a fault.
abbrev pub next_int : {A : Type 0} → ℕ → (ℕ → Run A) → Run A
next_int n k = if ltb (n + 1) (2 ^ 31) then k (n + 1) else fault

-- A function that sees no stream.
abbrev pub run : {S A : Type 0} → Run A → Prog S A
run (ok a) s = done a s
run (panic m) s = faulted
run fault s = faulted
run out_of_fuel s = running
