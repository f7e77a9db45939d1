-- ===== src/Tools/Free/Ends.antt =====
-- The loop of `free` over the lines ends.
use yaup.Base.{
  ℕ, zero, suc, ◌<◌, ◌≡◌, inl, inr, refl, Bool, true, false, Option, none, some, List, length,
  arith,
}
use yaup.Tools.Os.{Os}
use yaup.Tools.Program.{Prog, Process}
use yaup.Tools.Program.Scan.{meets_end}
use yaup.Tools.Grep.Ends.{IsOver}
use yaup.Tools.Login.Ends.{line_of_takes}
use yaup.Tools.Free.{Doubles, Memory, go_on, meminfo_loop}

module _ (r : Doubles) (o : Os) where
  go_on-IsOver :
      (field : Option (Memory r)) (ended : Bool) (rest : Memory r → Prog (Process o) (Memory r))
      (s : Process o)
      → ((mem : Memory r) → ended ≡ false → IsOver (rest mem s))
      → IsOver (go_on r ended field rest s)
  go_on-IsOver none true rest s more = inr refl
  go_on-IsOver none false rest s more = inr refl
  go_on-IsOver (some mem) true rest s more = inl (mem, s, refl)
  go_on-IsOver (some mem) false rest s more = more mem refl

  -- Whatever the lines are, the loop returns or faults within a round for each byte and one more.
  pub meminfo_loop-IsOver :
      (fuel n : ℕ) (held : List ℕ) (mem : Memory r) (fp : List ℕ) (s : Process o)
      → length fp < fuel
      → IsOver (meminfo_loop r fuel n held mem fp s)
  unfolding meminfo_loop
  meminfo_loop-IsOver zero n held mem fp s lt = absurd (omega arith)
  meminfo_loop-IsOver (suc fuel) n held mem fp s lt =
      let size = suc (length fp) in
      go_on-IsOver _ (meets_end size fp) _ s (λ mem' inside.
        meminfo_loop-IsOver fuel n _ mem' _ s (omega (arith, line_of_takes (length fp) fp inside)))
