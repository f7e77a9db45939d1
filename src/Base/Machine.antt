-- ===== src/Base/Machine.antt =====
-- What a C function does besides returning, and functions over a state.
use mathlib.Core.Bool.{Bool, true, false}
use Prim.Native.String.{String}
use mathlib.Core.Option.{Option, none, some}

-- `panic` is a call of `panic`, which does not come back. `fault` is undefined behaviour: a null
-- or dangling pointer, an index out of bounds. `out_of_fuel` is a loop that has not ended.
pub data Run {ℓ} (A : Type ℓ) : Type ℓ where
  ok : A → Run A
  panic : String → Run A
  fault : Run A
  out_of_fuel : Run A

-- A function that changes the state `K`.
abbrev pub Cmd : Type 0 → Type 0 → Type 0
Cmd K A = K → Run (A × K)

module _ {K A B : Type 0} where
  abbrev pub and_then : Run (A × K) → (A → Cmd K B) → Run (B × K)
  and_then (ok (a, s)) k = k a s
  and_then (panic m) k = panic m
  and_then fault k = fault
  and_then out_of_fuel k = out_of_fuel

  infixl 5 ◌>>=◌ ◌>>◌
  abbrev pub ◌>>=◌ : Cmd K A → (A → Cmd K B) → Cmd K B
  ◌>>=◌ m k s = and_then (m s) k

  abbrev pub ◌>>◌ : Cmd K A → Cmd K B → Cmd K B
  ◌>>◌ m n s = and_then (m s) (λ _. n)

abbrev pub pure : {K A : Type 0} → A → Cmd K A
pure a s = ok (a, s)

abbrev pub panics : {K A : Type 0} → String → Cmd K A
panics m s = panic m

abbrev pub faults : {K A : Type 0} → Cmd K A
faults s = fault

abbrev pub gets : {K A : Type 0} → (K → A) → Cmd K A
gets f s = ok (f s, s)

abbrev pub modify : {K : Type 0} → (K → K) → Cmd K (Unit {0})
modify f s = ok (tt, f s)

-- The element that an index names; an index that names none is a fault.
abbrev pub deref : {K A : Type 0} → Option A → Cmd K A
deref none s = fault
deref (some a) s = ok (a, s)

-- `if (b) panic(m);`
abbrev pub panic_if : {K : Type 0} → Bool → String → Cmd K (Unit {0})
panic_if true m s = panic m
panic_if false m s = ok (tt, s)

-- A null pointer for which the code panics.
abbrev pub or_panic : {K A : Type 0} → Option A → String → Cmd K A
or_panic none m s = panic m
or_panic (some a) m s = ok (a, s)

-- A function that does not see the state.
abbrev pub lift : {K A : Type 0} → Run A → Cmd K A
lift (ok a) s = ok (a, s)
lift (panic m) s = panic m
lift fault s = fault
lift out_of_fuel s = out_of_fuel
