-- ===== src/Tools/Chgrp/Ends.antt =====
-- The search of a group's number ends.
use yaup.Base.{
  ℕ, zero, suc, ◌+◌, ◌<◌, ◌≡◌, ◌≢◌, ◌⊎◌, inl, inr, refl, ap, Bool, true, false, List, [], ◌∷◌,
  length, drop, set, if◌then◌else◌, ltb, ◌==◌, Run, ok, panic, fault, out_of_fuel, arith, String,
}
use yaup.Shell.Text.{strcmp_eq}
use yaup.Tools.Program.Scan.{then_run}
use yaup.Tools.Chgrp.{Field, Buffers, delim_loop, get_delim, gid_loop, gid_in}

-- A field takes something from the stream, or meets its end.
abbrev Takes : List ℕ → Field → Type 0
Takes str f = ((f.eof ≡ true) × (f.left ≡ [])) ⊎ (length f.left < length str)

-- A function that ends, and what its value fulfils.
data EndsWith {A : Type 0} (P : A → Type 0) : Run A → Type 0 where
  returns : {a : A} → P a → EndsWith P (ok a)
  panics : {m : String} → EndsWith P (panic m)
  faults : EndsWith P fault

if-EndsWith :
    {A : Type 0} {P : A → Type 0} (b : Bool) {r q : Run A}
    → EndsWith P r
    → EndsWith P q
    → EndsWith P (if b then r else q)
if-EndsWith true p q = p
if-EndsWith false p q = q

then_run-EndsWith :
    {A B : Type 0} {P : A → Type 0} {Q : B → Type 0} {r : Run A} {k : A → Run B}
    → EndsWith P r
    → ((a : A) → P a → EndsWith Q (k a))
    → EndsWith Q (then_run r k)
then_run-EndsWith (returns {a = a} p) h = h a p
then_run-EndsWith panics h = panics
then_run-EndsWith faults h = faults

weaken-EndsWith :
    {A : Type 0} {P Q : A → Type 0} {r : Run A}
    → ((a : A) → P a → Q a)
    → EndsWith P r
    → EndsWith Q r
weaken-EndsWith h (returns {a = a} p) = returns (h a p)
weaken-EndsWith h panics = panics
weaken-EndsWith h faults = faults

EndsWith-out_of_fuel : {A : Type 0} {P : A → Type 0} {r : Run A} → EndsWith P r → r ≢ out_of_fuel
EndsWith-out_of_fuel (returns p) = ground arith
EndsWith-out_of_fuel panics = ground arith
EndsWith-out_of_fuel faults = ground arith

strcmp_eq-EndsWith : (s t : List ℕ) → EndsWith (λ b. Unit {0}) (strcmp_eq s t)
unfolding strcmp_eq
strcmp_eq-EndsWith [] t = faults
strcmp_eq-EndsWith (c ∷ s) [] = returns tt
strcmp_eq-EndsWith (c ∷ s) (d ∷ t) = if-EndsWith (c == d) (strcmp_eq-EndsWith s t) (returns tt)

Takes-more : (c : ℕ) (str : List ℕ) (f : Field) → Takes str f → Takes (c ∷ str) f
Takes-more c str f (inl p) = inl p
Takes-more c str f (inr p) = inr (omega arith)

delim_loop-EndsWith :
    (sz delim i : ℕ) (buff str : List ℕ) → EndsWith (Takes str) (delim_loop sz delim i buff str)
unfolding delim_loop
delim_loop-EndsWith sz delim i buff [] =
    if-EndsWith (ltb i (length buff)) (returns (inl (refl, refl))) faults
delim_loop-EndsWith sz delim i buff (c ∷ str) =
    if-EndsWith (c == delim)
      (if-EndsWith (ltb i (length buff)) (returns (inr (omega arith))) faults)
      (if-EndsWith (ltb i (length buff))
        (if-EndsWith (ltb sz (i + 1)) (returns (inr (dropped str))) (
          weaken-EndsWith (Takes-more c str)
            (delim_loop-EndsWith sz delim (i + 1) (set buff i c) str)))
        faults)
  where
    dropped : (cs : List ℕ) → length (drop 1 cs) < suc (length cs)
    dropped [] = omega arith
    dropped (d ∷ cs) = omega arith

Takes-both : (str : List ℕ) (f g : Field) → Takes str f → Takes f.left g → Takes str g
Takes-both str f g p (inl q) = inl q
Takes-both str f g (inl (e, none_left)) (inr q) = absurd (omega (arith, q, ap length none_left))
Takes-both str f g (inr p) (inr q) = inr (omega arith)

enough :
    (fuel : ℕ) (groups : List ℕ) (f : Field)
    → length groups < suc fuel
    → Takes groups f
    → (f.eof ≡ true) ⊎ (length f.left < fuel)
enough fuel groups f lt (inl (e, none_left)) = inl e
enough fuel groups f lt (inr less) = inr (omega arith)

gid_loop-EndsWith :
    (fuel : ℕ) (str : List ℕ) (bs : Buffers) (found eof : Bool) (groups : List ℕ)
    → (eof ≡ true) ⊎ (length groups < fuel)
    → EndsWith (λ n. Unit {0}) (gid_loop fuel str bs found eof groups)
unfolding gid_loop get_delim
gid_loop-EndsWith fuel str bs found true groups more = returns tt
gid_loop-EndsWith zero str bs found false groups (inl e) = absurd (ground arith)
gid_loop-EndsWith zero str bs found false groups (inr lt) = absurd (omega arith)
gid_loop-EndsWith (suc fuel) str bs found false groups (inl e) = absurd (ground arith)
gid_loop-EndsWith (suc fuel) str bs found false groups (inr lt) =
    then_run-EndsWith (delim_loop-EndsWith 64 58 0 bs.gname groups) (λ f f_takes.
      then_run-EndsWith (strcmp_eq-EndsWith f.buff str) (λ same u.
        if-EndsWith same
          (then_run-EndsWith (delim_loop-EndsWith 512 58 0 bs.gpass f.left) (λ p p_takes.
            then_run-EndsWith (delim_loop-EndsWith 5 58 0 bs.gid p.left) (λ g g_takes.
              gid_loop-EndsWith fuel str _ true g.eof g.left (
                enough fuel groups g lt
                  (Takes-both groups p g (Takes-both groups f p f_takes p_takes) g_takes)))))
          (then_run-EndsWith (delim_loop-EndsWith 512 10 0 bs.gpass f.left) (λ p p_takes.
            gid_loop-EndsWith fuel str _ found p.eof p.left
              (enough fuel groups p lt (Takes-both groups f p f_takes p_takes))))))

-- Whatever /etc/group holds, the search of a group ends within the rounds that it is given.
pub gid_in_ends : (bs : Buffers) (groups str : List ℕ) → gid_in bs groups str ≢ out_of_fuel
unfolding gid_in
gid_in_ends bs groups str =
    EndsWith-out_of_fuel
      (gid_loop-EndsWith (suc (suc (length groups))) str bs false false groups (inr (omega arith)))
