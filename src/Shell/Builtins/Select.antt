-- ===== src/Shell/Builtins/Select.antt =====
-- `select_cmd` finds the first command of the name.
use yaup.Base.{
  ℕ, ◌+◌, ◌≡◌, refl, sym, ap, Option, none, some, List, [], ◌∷◌, ◌++◌, ==_ne, bump, find_index, ok,
  fault, arith, Cmd, ℤ, pos, negsuc,
}
use yaup.Shell.Text.{strcmp_eq, same_text}
use yaup.Shell.Text.Laws.{IsText}
use yaup.Shell.State.{System, Shell}
use yaup.Shell.Builtins.{Builtin, builtins, select_loop, select_cmd, time_of, time_call}

abbrev pub AreTexts : List (List ℕ) → Type 0
AreTexts [] = Unit {0}
AreTexts (t ∷ ts) = IsText t × AreTexts ts

-- `strcmp` compares the strings.
pub strcmp_eq-same_text :
    (w rest t : List ℕ) → IsText w → IsText t → strcmp_eq (w ++ (0 ∷ rest)) t ≡ ok (same_text t w)
unfolding strcmp_eq same_text
strcmp_eq-same_text [] rest [] p q = refl
strcmp_eq-same_text [] rest (d ∷ t) p (n, q) = ground (arith, ==_ne 0 d (λ e. n (sym e)))
strcmp_eq-same_text (c ∷ w) rest [] (n, p) q = ground (arith, ==_ne c 0 n)
strcmp_eq-same_text (c ∷ w) rest (d ∷ t) (n, p) (m, q) =
    ground (arith, strcmp_eq-same_text w rest t p q)

abbrev pub selected : ℕ → Option ℕ → ℤ
selected i none = negsuc 0
selected i (some k) = pos (i + k)

selected-next : (i : ℕ) (o : Option ℕ) → selected (i + 1) o ≡ selected i (bump o)
selected-next i none = refl
selected-next i (some k) = ap pos (omega arith)

select_loop-find_index :
    (names : List (List ℕ)) (i : ℕ) (w rest : List ℕ)
    → IsText w
    → AreTexts names
    → select_loop names i (w ++ (0 ∷ rest))
      ≡ ok (selected i (find_index (λ t. same_text t w) names))
unfolding select_loop find_index
select_loop-find_index [] i w rest p q = refl
select_loop-find_index (t ∷ names) i w rest p (q, qs) = ground (
  arith,
  strcmp_eq-same_text w rest t p q,
  select_loop-find_index names (i + 1) w rest p qs,
  selected-next i (find_index (λ x. same_text x w) names),
)

-- For a command and names without NULs, `select_cmd` gives the index of the first name that equals
-- the command, and -1 if there is none.
pub select_cmd-find_index :
    (names : List (List ℕ)) (w rest : List ℕ)
    → IsText w
    → AreTexts names
    → select_cmd names (some (w ++ (0 ∷ rest)))
      ≡ ok (selected 0 (find_index (λ t. same_text t w) names))
unfolding select_cmd
select_cmd-find_index names w rest p q = select_loop-find_index names 0 w rest p q

pub builtins-AreTexts : AreTexts builtins
unfolding yaup.Shell.Text.text
builtins-AreTexts = ground arith

module _ {y : System} where
  -- `time` of a command that is no builtin calls entry 11 of a table that has fewer: a fault.
  pub time_of-other :
      (call : Builtin → Cmd (Shell y) ℕ) (w rest : List ℕ) (s : Shell y)
      → IsText w
      → find_index (λ t. same_text t w) builtins ≡ none
      → time_of call (some (w ++ (0 ∷ rest))) s ≡ fault
  unfolding time_of time_call
  time_of-other call w rest s p none_such =
      ground (arith, select_cmd-find_index builtins w rest p builtins-AreTexts)
