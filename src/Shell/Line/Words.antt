-- ===== src/Shell/Line/Words.antt =====
-- `split_line` as a whole: up to 63 words are split as they should be, more are not survived.
use yaup.Base.{
  ℕ, zero, suc, ◌+◌, ◌-◌, ◌*◌, ◌<◌, ◌≤◌, ◌≡◌, refl, sym, ap, ◌∙◌, ◌⊎◌, inl, inr, Bool, true, false,
  List, [], ◌∷◌, ◌++◌, length, map, take, drop, ok, fault, arith, some, subst, ap₂,
}
use native.Mathlib.Decide.{ℕ_discrete}
use yaup.Shell.Text.{is_delim, skip_delims, token_of, after_token, string_of}
use yaup.Shell.Text.Laws.{IsText, AreStrings}
use yaup.Shell.Line.{split_loop, split_line, put_token, terminated, grow_tokens, has_slot}
use yaup.Shell.Line.Split.{
  words, words-skip_delims, words-token_of, skip_delims_head, length-skip_delims,
  length-after_token, length-drop_one, skip_delims-IsText, after_token-IsText, split_loop-end,
  split_loop-next, string_of-token_of, token_of-IsString,
}

List-cases : (l : List ℕ) → (l ≡ []) ⊎ ((c : ℕ) × (cs : List ℕ) × (l ≡ c ∷ cs))
List-cases [] = inl refl
List-cases (c ∷ cs) = inr (c, cs, refl)

has_slot-true : (i : ℕ) → i < 64 → has_slot i (64 * 8) ≡ true
unfolding has_slot
has_slot-true i lt = ground arith

grow_tokens-enough :
    (grants : ℕ → Bool) (beyond : List ℕ) (i : ℕ)
    → i < 64
    → grow_tokens grants beyond i 64 (64 * 8) ≡ some (64, 64 * 8)
unfolding grow_tokens
grow_tokens-enough grants beyond i lt = ground arith

put_token-ok :
    (grants : ℕ → Bool) (beyond line start behind : List ℕ) (tokens : List (List ℕ))
    → put_token grants beyond line start (ok (some (tokens, behind)))
      ≡ ok (
          some (
            (token_of start ++ terminated grants beyond (after_token start) behind) ∷ tokens,
            take (length line - length start) line
                ++ (token_of start ++ terminated grants beyond (after_token start) behind),
          ))
unfolding put_token
put_token-ok grants beyond line start behind tokens = refl

length-rest_of :
    (c : ℕ) (cs : List ℕ) → is_delim c ≡ false → length (drop 1 (after_token (c ∷ cs))) ≤ length cs
unfolding after_token
length-rest_of c cs p = ground (arith, length-after_token cs, length-drop_one (after_token cs))

length-rest :
    (line : List ℕ) (c : ℕ) (cs : List ℕ)
    → skip_delims line ≡ c ∷ cs
    → length (drop 1 (after_token (c ∷ cs))) < length line
unfolding after_token
length-rest line c cs e =
    let some_left = ap length e in
    omega (arith, length-skip_delims line, length-rest_of c cs (skip_delims_head line c cs e))

split_loop-words :
    (grants : ℕ → Bool) (beyond : List ℕ) (fuel i : ℕ) (line : List ℕ)
    → IsText line
    → length line < fuel
    → i + length (words line) < 64
    → (tokens : List (List ℕ)) × (buff : List ℕ) × (split_loop grants beyond fuel i 64 (64 * 8) line
        ≡ ok (some (tokens, buff)))
      × (map string_of tokens ≡ words line)
      × AreStrings tokens
unfolding words
split_loop-words grants beyond zero i line t lt few = ground arith
split_loop-words grants beyond (suc fuel) i line t lt few =
    let slot = has_slot-true i (omega arith) in
    elim (List-cases (skip_delims line)) [
      | inl e ↦ (
        [],
        line ++ (0 ∷ beyond),
        split_loop-end grants beyond fuel i 64 (64 * 8) line slot e,
        ap words (sym e) ∙ words-skip_delims line,
        tt,
      )
      | inr (c, cs, e) ↦
          let start : List ℕ = c ∷ cs in
          let rest = drop 1 (after_token start) in
          let w : words line ≡ token_of start ∷ words rest =
            sym (words-skip_delims line)
            ∙ ap words e
            ∙ words-token_of c cs (skip_delims_head line c cs e) in
          let one : length (words line) ≡ suc (length (words rest)) = ap length w in
          let ts : IsText start = subst IsText e (skip_delims-IsText line t) in
          let (tokens, behind, r, m, nuls) =
            split_loop-words grants beyond fuel (i + 1) rest (after_token-IsText start ts)
              (omega (arith, length-rest line c cs e)) (omega arith) in
          (
            _,
            _,
            split_loop-next grants beyond fuel i 64 (64 * 8) line slot c cs 64 (64 * 8) e
                  (grow_tokens-enough grants beyond (i + 1) (omega arith))
                ∙ ap (put_token grants beyond line start) r
                ∙ put_token-ok grants beyond line start behind tokens,
            ap₂ (λ x xs. x ∷ xs)
                  (string_of-token_of grants beyond (after_token start) behind start ts) m
                ∙ sym w,
            (token_of-IsString grants beyond (after_token start) behind start ts, nuls),
          )
    ]

put_token-fault :
    (grants : ℕ → Bool) (beyond line start : List ℕ)
    → put_token grants beyond line start fault ≡ fault
unfolding put_token
put_token-fault grants beyond line start = refl

split_loop-full :
    (grants : ℕ → Bool) (beyond : List ℕ) (fuel : ℕ) (line : List ℕ)
    → split_loop grants beyond (suc fuel) 64 128 128 line ≡ fault
unfolding split_loop has_slot
split_loop-full grants beyond fuel line = ground arith

grow_tokens-short :
    (grants : ℕ → Bool) (beyond : List ℕ)
    → grants 128 ≡ true
    → grow_tokens grants beyond 64 64 (64 * 8) ≡ some (128, 128)
unfolding grow_tokens
grow_tokens-short grants beyond g = ground arith

split_loop-full_any :
    (grants : ℕ → Bool) (beyond : List ℕ) (fuel : ℕ) (line : List ℕ)
    → length line < fuel
    → split_loop grants beyond fuel 64 128 128 line ≡ fault
split_loop-full_any grants beyond zero line lt = ground arith
split_loop-full_any grants beyond (suc fuel) line lt = split_loop-full grants beyond fuel line

split_loop-many :
    (grants : ℕ → Bool) (beyond : List ℕ) (fuel i : ℕ) (line : List ℕ)
    → grants 128 ≡ true
    → length line < fuel
    → i < 64
    → 64 ≤ i + length (words line)
    → split_loop grants beyond fuel i 64 (64 * 8) line ≡ fault
unfolding words
split_loop-many grants beyond zero i line more lt small many = ground arith
split_loop-many grants beyond (suc fuel) i line more lt small many =
    let slot = has_slot-true i small in
    elim (List-cases (skip_delims line)) [
      | inl e ↦
          let w : length (words line) ≡ 0 = ap length (sym (words-skip_delims line) ∙ ap words e) in
          absurd (ground arith)
      | inr (c, cs, e) ↦
          let start : List ℕ = c ∷ cs in
          let rest = drop 1 (after_token start) in
          let one : length (words line) ≡ suc (length (words rest)) = ap length (
            sym (words-skip_delims line)
            ∙ ap words e
            ∙ words-token_of c cs (skip_delims_head line c cs e)) in
          let shorter : length rest < fuel = ground (arith, length-rest line c cs e) in
          elim (ℕ_discrete (i + 1) 64) [
            | yes last ↦
                split_loop-next grants beyond fuel i 64 (64 * 8) line slot c cs 128 128 e (
                  ap (λ n. grow_tokens grants beyond n 64 (64 * 8)) last
                  ∙ grow_tokens-short grants beyond more)
                ∙ ap (put_token grants beyond line start) (
                    ap (λ n. split_loop grants beyond fuel n 128 128 rest) last
                    ∙ split_loop-full_any grants beyond fuel rest shorter)
                ∙ put_token-fault grants beyond line start
            | no n ↦
                split_loop-next grants beyond fuel i 64 (64 * 8) line slot c cs 64 (64 * 8) e
                  (grow_tokens-enough grants beyond (i + 1) (omega arith))
                ∙ ap (put_token grants beyond line start) (
                    split_loop-many grants beyond fuel (i + 1) rest more shorter (omega arith)
                      (omega arith))
                ∙ put_token-fault grants beyond line start
          ]
    ]

-- Of a line of fewer than 64 words `split_line` returns tokens that are the line's words, each with
-- a NUL behind it, if the vector's allocation is granted.
pub split_line-words :
    (grants : ℕ → Bool) (beyond line : List ℕ)
    → grants (64 * 8) ≡ true
    → IsText line
    → length (words line) < 64
    → (tokens : List (List ℕ)) × (buff : List ℕ) × (split_line grants beyond line
        ≡ ok (some (tokens, buff)))
      × (map string_of tokens ≡ words line)
      × AreStrings tokens
unfolding split_line
split_line-words grants beyond line g t few =
    let (tokens, buff, r, m, nuls) =
      split_loop-words grants beyond (length line + 1) 0 line t (omega arith) (omega arith) in
    (tokens, buff, ground arith, m, nuls)

-- A line of 64 words or more makes `split_line` write past its vector, which `realloc` has shrunk:
-- a fault, if the allocations are granted.
pub split_line-many :
    (grants : ℕ → Bool) (beyond line : List ℕ)
    → grants (64 * 8) ≡ true
    → grants 128 ≡ true
    → 64 ≤ length (words line)
    → split_line grants beyond line ≡ fault
unfolding split_line
split_line-many grants beyond line g more many =
    let r =
      split_loop-many grants beyond (length line + 1) 0 line more (omega arith) (omega arith)
        (omega arith) in
    ground arith
