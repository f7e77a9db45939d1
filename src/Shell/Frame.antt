-- ===== src/Shell/Frame.antt =====
-- Commands that leave the names of the shell's first six variables alone.
use yaup.Base.{
  ℕ, ◌≤◌, ◌≡◌, refl, Bool, true, false, Option, none, some, List, get_elem?, if◌then◌else◌, Run, ok,
  panic, fault, out_of_fuel, Cmd, and_then, ◌>>=◌, pure, panics, faults, gets, modify, deref, lift,
  arith, String,
}
use yaup.Shell.Text.{string_of}
use yaup.Shell.State.{System, Shell, put, value_text}

-- The first six names that are set stay as they are.
abbrev pub Keeps : {y : System} → Shell y → Shell y → Type 0
Keeps s t =
    (i : ℕ) (b : List ℕ)
    → i ≤ 5
    → get_elem? s.envp_name i ≡ some (some b)
    → get_elem? t.envp_name i ≡ some (some b)

abbrev pub IsSafe : {y : System} {A : Type 0} → Cmd (Shell y) A → Type 0
IsSafe {y = y} {A = A} m = (s t : Shell y) (a : A) → m s ≡ ok (a, t) → Keeps s t

pub and_then-ok :
    {K A B : Type 0} (r : Run (A × K)) (k : A → Cmd K B) (b : B) (t : K)
    → and_then r k ≡ ok (b, t)
    → (a : A) × (s : K) × (r ≡ ok (a, s)) × (k a s ≡ ok (b, t))
and_then-ok (ok (a, s)) k b t e = (a, s, refl, e)
and_then-ok (panic m) k b t e = ground arith
and_then-ok fault k b t e = ground arith
and_then-ok out_of_fuel k b t e = ground arith

module _ {y : System} {A : Type 0} where
  pub bind-IsSafe :
      {B : Type 0} (m : Cmd (Shell y) A) (k : A → Cmd (Shell y) B)
      → IsSafe m
      → ((a : A) → IsSafe (k a))
      → IsSafe (m >>= k)
  bind-IsSafe m k p q s t b e =
      let (a, s', e1, e2) = and_then-ok (m s) k b t e in
      λ i n small g. q a s' t b e2 i n small (p s s' a e1 i n small g)

  -- A command that changes no name.
  pub frame-IsSafe :
      (m : Cmd (Shell y) A)
      → ((s t : Shell y) (a : A) → m s ≡ ok (a, t) → t.envp_name ≡ s.envp_name)
      → IsSafe m
  frame-IsSafe m f s t a e i b small g = rw (f s t a e) g

  pub pure-IsSafe : (a : A) → IsSafe {y = y} (pure a)
  pure-IsSafe a = frame-IsSafe (pure a) (λ s t b e. ground arith)

  pub faults-IsSafe : IsSafe {y = y} {A = A} faults
  faults-IsSafe = frame-IsSafe faults (λ s t b e. ground arith)

  pub panics-IsSafe : (m : String) → IsSafe {y = y} {A = A} (panics m)
  panics-IsSafe m = frame-IsSafe (panics m) (λ s t b e. ground arith)

  pub gets-IsSafe : (f : Shell y → A) → IsSafe (gets f)
  gets-IsSafe f = frame-IsSafe (gets f) (λ s t b e. ground arith)

  pub lift-IsSafe : (r : Run A) → IsSafe {y = y} (lift r)
  lift-IsSafe (ok a) = frame-IsSafe (lift (ok a)) (λ s t b e. ground arith)
  lift-IsSafe (panic m) = frame-IsSafe (lift (panic m)) (λ s t b e. ground arith)
  lift-IsSafe fault = frame-IsSafe (lift fault) (λ s t b e. ground arith)
  lift-IsSafe out_of_fuel = frame-IsSafe (lift out_of_fuel) (λ s t b e. ground arith)

  pub deref-IsSafe : (o : Option A) → IsSafe {y = y} (deref o)
  deref-IsSafe none = frame-IsSafe (deref none) (λ s t b e. ground arith)
  deref-IsSafe (some a) = frame-IsSafe (deref (some a)) (λ s t b e. ground arith)

module _ {y : System} where
  pub modify-IsSafe :
      (f : Shell y → Shell y) → ((s : Shell y) → (f s).envp_name ≡ s.envp_name) → IsSafe (modify f)
  modify-IsSafe f keeps = frame-IsSafe (modify f) (λ s t b e. ground (arith, keeps s))

  pub put-IsSafe : (cs : List ℕ) → IsSafe {y = y} (put cs)
  put-IsSafe cs = frame-IsSafe (put cs) (λ s t b e. ground arith)

  pub value_text-IsSafe : (i : ℕ) → IsSafe {y = y} (value_text i)
  value_text-IsSafe i = bind-IsSafe _ _ (gets-IsSafe _) (λ slot.
      bind-IsSafe _ _ (deref-IsSafe slot)
        (λ value. bind-IsSafe _ _ (deref-IsSafe value) (λ bytes. pure-IsSafe (string_of bytes))))

  -- Branches of a command.
  pub option-IsSafe :
      {A B : Type 0} (o : Option A) (m : Cmd (Shell y) B) (k : A → Cmd (Shell y) B)
      → IsSafe m
      → ((a : A) → IsSafe (k a))
      → IsSafe {y = y} (elim o [ none ↦ m | some a ↦ k a ])
  option-IsSafe none m k p q = p
  option-IsSafe (some a) m k p q = q a

  pub if-IsSafe :
      {B : Type 0} (b : Bool) (m n : Cmd (Shell y) B)
      → IsSafe m
      → IsSafe n
      → IsSafe {y = y} (if b then m else n)
  if-IsSafe true m n p q = p
  if-IsSafe false m n p q = q
