-- ===== src/Tools/Chgrp/Group.antt =====
-- `get_delim` reads a field of a line of /etc/group.
use yaup.Base.{
  ℕ, zero, suc, ◌+◌, ◌<◌, ◌≤◌, ◌≡◌, ◌⊎◌, ◌∙◌, ap, refl, true, false, Bool, Bool-cases, inl, inr,
  List, [], ◌∷◌, ◌++◌, append_assoc, length, length-set, set, take, drop, if◌then◌else◌, ◌==◌, ltb,
  Run, ok, fault, arith,
}
use yaup.Base.Sublists.{take-set_next, drop-set_before}
use yaup.Tools.Chgrp.{Field, put_byte, delim_loop, get_delim}

-- The characters in front of the first delimiter, what is behind it, and whether there is none.
unfoldable pub field_of : ℕ → List ℕ → List ℕ
field_of delim [] = []
field_of delim (c ∷ str) = let rest = field_of delim str in if c == delim then [] else c ∷ rest

unfoldable pub after_field : ℕ → List ℕ → List ℕ
after_field delim [] = []
after_field delim (c ∷ str) = let rest = after_field delim str in if c == delim then str else rest

unfoldable pub lacks : ℕ → List ℕ → Bool
lacks delim [] = true
lacks delim (c ∷ str) = let rest = lacks delim str in if c == delim then false else rest

unfoldable pub field_result : ℕ → ℕ → List ℕ → List ℕ → Field
field_result delim i buff str =
    let field = field_of delim str in
    record {
      buff = take i buff ++ (field ++ (0 ∷ drop (suc (i + length field)) buff));
      eof = lacks delim str;
      left = after_field delim str;
    }

put_byte-set :
    {A : Type 0} (buff : List ℕ) (i c : ℕ) (k : List ℕ → Run A)
    → i < length buff
    → put_byte buff i c k ≡ k (set buff i c)
put_byte-set buff i c k lt = ground arith

put_byte-fault :
    {A : Type 0} (buff : List ℕ) (i c : ℕ) (k : List ℕ → Run A)
    → length buff ≤ i
    → put_byte buff i c k ≡ fault
put_byte-fault buff i c k le = ground arith

set_split :
    (buff : List ℕ) (i c : ℕ)
    → i < length buff
    → set buff i c ≡ take i buff ++ (c ∷ drop (suc i) buff)
set_split [] i c lt = absurd (omega arith)
set_split (b ∷ buff) zero c lt = refl
set_split (b ∷ buff) (suc i) c lt = ap (λ r. b ∷ r) (set_split buff i c (omega arith))

field_result_next :
    (delim i c : ℕ) (buff str : List ℕ)
    → (c == delim) ≡ false
    → i < length buff
    → field_result delim (suc i) (set buff i c) str ≡ field_result delim i buff (c ∷ str)
unfolding field_result field_of after_field lacks
field_result_next delim i c buff str e lt =
    let f = field_of delim str in
    ground (
      arith,
      take-set_next i buff c lt,
      drop-set_before (suc (suc i + length f)) i buff c (omega arith),
      append_assoc (take i buff) (c ∷ []) (f ++ (0 ∷ drop (suc (suc i + length f)) buff)),
    )

delim_loop-field_result :
    (sz delim i : ℕ) (buff str : List ℕ)
    → length buff ≡ sz
    → i + length (field_of delim str) < sz
    → delim_loop sz delim i buff str ≡ ok (field_result delim i buff str)
unfolding delim_loop field_result field_of after_field lacks
delim_loop-field_result sz delim i buff [] l lt = ground (arith, set_split buff i 0 (omega arith))
delim_loop-field_result sz delim i buff (c ∷ str) l lt = elim (Bool-cases (c == delim)) [
  | inl e ↦ ground (arith, set_split buff i 0 (ground arith))
  | inr e ↦
      let more =
        delim_loop-field_result sz delim (suc i) (set buff i c) str (length-set buff i c ∙ l)
          (ground arith) in
      ground (
        arith,
        put_byte-set buff i c _ (ground arith),
        more,
        field_result_next delim i c buff str e (ground arith),
      )
]

delim_loop-fault :
    (sz delim i : ℕ) (buff str : List ℕ)
    → length buff ≡ sz
    → i ≤ sz
    → sz ≤ i + length (field_of delim str)
    → delim_loop sz delim i buff str ≡ fault
unfolding delim_loop field_of
delim_loop-fault sz delim i buff [] l le long = ground arith
delim_loop-fault sz delim i buff (c ∷ str) l le long = elim (Bool-cases (c == delim)) [
  | inl e ↦ ground arith
  | inr e ↦ elim (Bool-cases (ltb i sz)) [
    | inl lt ↦
        let more =
          delim_loop-fault sz delim (suc i) (set buff i c) str (length-set buff i c ∙ l)
            (ground arith) (ground arith) in
        ground (arith, put_byte-set buff i c _ (ground arith), more)
    | inr ge ↦ ground arith
  ]
]

-- `get_delim` with a buffer of `sz` bytes and that size: a field of fewer characters is put into the
-- buffer with a NUL behind it, and the stream is left behind its delimiter, or at its end if it has
-- none. A longer field, and one of `sz` characters, is a write past the buffer: a fault.
pub get_delim_lem :
    (buff str : List ℕ) (delim : ℕ)
    → ((length (field_of delim str) < length buff)
        × (get_delim buff (length buff) delim str ≡ ok (field_result delim 0 buff str)))
      ⊎ ((length buff ≤ length (field_of delim str))
          × (get_delim buff (length buff) delim str ≡ fault))
unfolding get_delim
get_delim_lem buff str delim = elim (Bool-cases (ltb (length (field_of delim str)) (length buff))) [
  | inl lt ↦
      inl (ground arith, delim_loop-field_result (length buff) delim 0 buff str refl (ground arith))
  | inr ge ↦ inr (
    ground arith,
    delim_loop-fault (length buff) delim 0 buff str refl (omega arith) (ground arith),
  )
]
