-- ===== src/Shell/Line/Read.antt =====
-- `read_line`: the buffer grows with the line.
use yaup.Base.{
  ℕ, suc, ◌+◌, ◌-◌, ◌*◌, ◌^◌, ◌<◌, ◌≤◌, ◌≡◌, ◌≢◌, refl, sym, ap, ◌∙◌, inl, inr, List, [], ◌∷◌, ◌++◌,
  ==_ne, Bool-cases, length, take, drop, get_elem?, set, length-set, get_elem?-set_self, ok, arith,
  leb, Option, some, length-append, append_assoc, append-nil, length-drop,
}
use yaup.Base.Sublists.{take_all, take-append_left, take-set_next, take-set_past, get_elem?_inside}
use yaup.Shell.Line.{store, realloc, grow, read_chars, read_line, buff_sz}

-- The allocator grants every request.
abbrev pub IsGranting : (ℕ → Option (List ℕ)) → Type 0
IsGranting fresh = (n : ℕ) → (bytes : List ℕ) × (fresh n ≡ some bytes) × (length bytes ≡ n)

-- No newline.
abbrev pub IsLine : List ℕ → Type 0
IsLine [] = Unit {0}
IsLine (c ∷ cs) = (c ≢ 10) × IsLine cs

store-set : (buff : List ℕ) (i c : ℕ) → i < length buff → store buff i c ≡ ok (set buff i c)
unfolding store
store-set buff i c lt = let (old, e) = get_elem?_inside buff i lt in ground arith

realloc-keeps :
    (fresh : ℕ → Option (List ℕ)) (buff : List ℕ) (n k : ℕ)
    → IsGranting fresh
    → length buff ≤ n
    → k ≤ length buff
    → (out : List ℕ) × (realloc fresh buff n ≡ some out)
      × (length out ≡ n)
      × (take k out ≡ take k buff)
unfolding realloc
realloc-keeps fresh buff n k grants le inside =
    let (bytes, e, len) = grants n in
    let kept = take_all n buff le in
    (
      take n buff ++ drop (length buff) bytes,
      ground arith,
      omega (
        arith,
        length-append (take n buff) (drop (length buff) bytes),
        ap length kept,
        length-drop (length buff) bytes,
      ),
      ap (λ b. take k (b ++ drop (length buff) bytes)) kept
          ∙ take-append_left k buff (drop (length buff) bytes) inside,
    )

-- Room for the next character.
grow-room :
    (fresh : ℕ → Option (List ℕ)) (i bufsiz : ℕ) (buff : List ℕ)
    → IsGranting fresh
    → length buff ≡ bufsiz
    → buff_sz ≤ bufsiz
    → i ≤ bufsiz
    → bufsiz + buff_sz < 2 ^ 31
    → (n : ℕ) × (out : List ℕ) × (grow fresh i bufsiz buff ≡ ok (some (n, out)))
      × (length out ≡ n)
      × (i < n)
      × (bufsiz ≤ n)
      × (n ≤ bufsiz + buff_sz)
      × (take i out ≡ take i buff)
unfolding grow
grow-room fresh i bufsiz buff grants len big le small = elim (Bool-cases (leb buff_sz i)) [
  | inl big_i ↦
      let (out, r, l, k) =
        realloc-keeps fresh buff (bufsiz + buff_sz) i grants (omega arith) (omega arith) in
      (bufsiz + buff_sz, out, ground arith, l, omega arith, omega arith, omega arith, k)
  | inr small_i ↦ (bufsiz, buff, ground arith, len, ground arith, omega arith, omega arith, refl)
]

module _ (fresh : ℕ → Option (List ℕ)) where
  read_chars-end :
      (rest : List ℕ) (i bufsiz : ℕ) (buff : List ℕ)
      → i < length buff
      → read_chars fresh (10 ∷ rest) i bufsiz buff ≡ ok (some (set buff i 0), rest)
  unfolding read_chars
  read_chars-end rest i bufsiz buff lt = ground (arith, store-set buff i 0 lt)

  read_chars-next :
      (c : ℕ) (cs : List ℕ) (i bufsiz n : ℕ) (buff out : List ℕ)
      → c ≢ 10
      → i < length buff
      → grow fresh (i + 1) bufsiz (set buff i c) ≡ ok (some (n, out))
      → read_chars fresh (c ∷ cs) i bufsiz buff ≡ read_chars fresh cs (i + 1) n out
  unfolding read_chars
  read_chars-next c cs i bufsiz n buff out ne lt g =
      ground (arith, store-set buff i c lt, ==_ne c 10 ne)

  read_chars-line :
      (line rest : List ℕ) (i bufsiz : ℕ) (buff : List ℕ)
      → IsGranting fresh
      → IsLine line
      → length buff ≡ bufsiz
      → buff_sz ≤ bufsiz
      → i < bufsiz
      → bufsiz + buff_sz * length line < 2 ^ 31
      → (out : List ℕ) × (read_chars fresh (line ++ (10 ∷ rest)) i bufsiz buff
          ≡ ok (some out, rest))
        × (take (i + length line) out ≡ take i buff ++ line)
        × (get_elem? out (i + length line) ≡ some 0)
  read_chars-line [] rest i bufsiz buff grants l len big inside small =
      let (old, e) = get_elem?_inside buff i (omega arith) in
      let here : i ≡ i + 0 = omega arith in
      (
        set buff i 0,
        read_chars-end rest i bufsiz buff (omega arith),
        ap (λ n. take n (set buff i 0)) (sym here)
            ∙ take-set_past i buff 0
            ∙ sym (append-nil (take i buff)),
        ap (get_elem? (set buff i 0)) (sym here) ∙ get_elem?-set_self buff i 0 e,
      )
  read_chars-line (c ∷ cs) rest i bufsiz buff grants (ne, l) len big inside small =
      let (n, b2, g, len', lt, ge, le, kept) =
        grow-room fresh (i + 1) bufsiz (set buff i c) grants (length-set buff i c ∙ len) big
          (omega arith) (omega arith) in
      let (out, r, tk, z) =
        read_chars-line cs rest (i + 1) n b2 grants l len' (omega arith) lt (omega arith) in
      let shift : (i + 1) + length cs ≡ i + length (c ∷ cs) = omega arith in
      let next : i + 1 ≡ suc i = omega arith in
      (
        out,
        read_chars-next c (cs ++ (10 ∷ rest)) i bufsiz n buff b2 ne (omega arith) g ∙ r,
        ap (λ m. take m out) (sym shift)
            ∙ tk
            ∙ ap (λ p. p ++ cs)
                (kept ∙ ap (λ m. take m (set buff i c)) next ∙ take-set_next i buff c (omega arith))
            ∙ append_assoc (take i buff) (c ∷ []) cs,
        ap (get_elem? out) (sym shift) ∙ z,
      )

  -- Of a line of fewer than 2 ^ 22 - 1 characters without a newline, and a newline behind it,
  -- `read_line` returns the characters with a NUL behind them, and leaves what is after the
  -- newline, if every allocation is granted.
  pub read_line-line :
      (line rest : List ℕ)
      → IsGranting fresh
      → IsLine line
      → length line < 2 ^ 22 - 1
      → (out : List ℕ) × (read_line fresh (line ++ (10 ∷ rest)) ≡ ok (some out, rest))
        × (take (length line) out ≡ line)
        × (get_elem? out (length line) ≡ some 0)
  unfolding read_line
  read_line-line line rest grants l small =
      let (bytes, e, len) = grants buff_sz in
      let (out, r, tk, z) =
        read_chars-line line rest 0 buff_sz bytes grants l len (omega arith) (omega arith)
          (omega arith) in
      let from_start : 0 + length line ≡ length line = omega arith in
      (
        out,
        ground arith,
        ap (λ n. take n out) (sym from_start) ∙ tk,
        ap (get_elem? out) (sym from_start) ∙ z,
      )
