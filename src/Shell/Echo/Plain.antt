-- ===== src/Shell/Echo/Plain.antt =====
-- What `echo` prints of plain arguments and of a quoted one.
use yaup.Base.{
  ℕ, ◌≡◌, ◌≢◌, refl, sym, ap, ◌∙◌, List, [], ◌∷◌, ◌++◌, ==_ne, map, append_assoc, append-nil, Run,
  ok, arith,
}
use yaup.Shell.State.{System, Shell}
use yaup.Shell.Echo.{
  is_quote, action, at_test, behind_quote, emit, put_first, echo_arg, echo_args, yash_echo,
}

-- No NUL, quote or backslash.
abbrev pub IsPlainText : List ℕ → Type 0
IsPlainText [] = Unit {0}
IsPlainText (c ∷ cs) = (c ≢ 0) × (c ≢ b'"') × (c ≢ b'\'') × (c ≢ 92) × IsPlainText cs

abbrev pub put_before : List ℕ → Run (List ℕ) → Run (List ℕ)
put_before [] r = r
put_before (c ∷ cs) r = put_first c (put_before cs r)

put_before-ok : (w tail : List ℕ) → put_before w (ok tail) ≡ ok (w ++ tail)
unfolding put_first
put_before-ok [] tail = refl
put_before-ok (c ∷ w) tail = ap (put_first c) (put_before-ok w tail)

action-emit : (c : ℕ) → c ≢ 0 → c ≢ b'"' → c ≢ b'\'' → c ≢ 92 → action at_test c ≡ emit
unfolding action is_quote
action-emit c n q q' b = ground (arith, ==_ne c 0 n, ==_ne c b'"' q, ==_ne c b'\'' q', ==_ne c 92 b)

action-emit_quoted : (c : ℕ) → c ≢ 92 → action behind_quote c ≡ emit
unfolding action
action-emit_quoted c b = ground (arith, ==_ne c 92 b)

-- Plain text is printed as it is.
echo_arg-plain :
    (w rest : List ℕ)
    → IsPlainText w
    → echo_arg at_test (w ++ rest) ≡ put_before w (echo_arg at_test rest)
unfolding echo_arg
echo_arg-plain [] rest p = refl
echo_arg-plain (c ∷ w) rest (n, q, q', b, p) =
    ground (arith, action-emit c n q q' b, echo_arg-plain w rest p)

echo_arg-end : (rest : List ℕ) → echo_arg at_test (0 ∷ rest) ≡ ok []
unfolding echo_arg action
echo_arg-end rest = refl

echo_arg-open :
    (c : ℕ) (r : List ℕ)
    → c ≢ 92
    → echo_arg at_test (b'"' ∷ c ∷ r) ≡ put_first c (echo_arg at_test r)
unfolding echo_arg action is_quote
echo_arg-open c r b = ground (arith, action-emit_quoted c b)

-- A word in double quotes is printed with a NUL behind it, and then what is in memory behind the
-- argument: the closing quote is skipped together with the test for the argument's end.
pub echo_arg-quoted :
    (c : ℕ) (w rest : List ℕ)
    → IsPlainText (c ∷ w)
    → echo_arg at_test (b'"' ∷ c ∷ (w ++ (b'"' ∷ 0 ∷ rest)))
      ≡ put_before (c ∷ w) (put_first 0 (echo_arg at_test rest))
echo_arg-quoted c w rest (n, q, q', b, p) =
    echo_arg-open c (w ++ (b'"' ∷ 0 ∷ rest)) b
    ∙ ap (put_first c) (
        echo_arg-plain w (b'"' ∷ 0 ∷ rest) p
        ∙ ap (put_before w) (echo_arg-open 0 rest (omega arith)))

-- An argument in memory: its string, with no NUL, and what is behind the NUL.
abbrev pub bytes : List ℕ × List ℕ → List ℕ
bytes (w, rest) = w ++ (0 ∷ rest)

abbrev pub ArePlain : List (List ℕ × List ℕ) → Type 0
ArePlain [] = Unit {0}
ArePlain ((w, rest) ∷ args) = IsPlainText w × ArePlain args

-- A space behind each string.
abbrev pub spaced : List (List ℕ × List ℕ) → List ℕ
spaced [] = []
spaced ((w, rest) ∷ args) = w ++ (32 ∷ spaced args)

echo_arg-bytes : (w rest : List ℕ) → IsPlainText w → echo_arg at_test (w ++ (0 ∷ rest)) ≡ ok w
echo_arg-bytes w rest p =
    echo_arg-plain w (0 ∷ rest) p
    ∙ ap (put_before w) (echo_arg-end rest)
    ∙ put_before-ok w []
    ∙ ap ok (append-nil w)

module _ {y : System} where
  echo_args-spaced :
      (args : List (List ℕ × List ℕ)) (s : Shell y)
      → ArePlain args
      → echo_args (map bytes args) s
        ≡ ok (0, record s { stdout = s.stdout ++ (spaced args ++ (10 ∷ [])) })
  unfolding echo_args
  echo_args-spaced [] s p = refl
  echo_args-spaced ((w, rest) ∷ args) s (p, ps) =
      let s1 : Shell y = record s { stdout = s.stdout ++ (w ++ (32 ∷ [])) } in
      let line = spaced args ++ (10 ∷ []) in
      let out : s1.stdout ++ line ≡ s.stdout ++ ((w ++ (32 ∷ spaced args)) ++ (10 ∷ [])) =
        append_assoc s.stdout (w ++ (32 ∷ [])) line
        ∙ ap (λ l. s.stdout ++ l)
            (append_assoc w (32 ∷ []) line ∙ sym (append_assoc w (32 ∷ spaced args) (10 ∷ []))) in
      ground (arith, echo_arg-bytes w rest p)
      ∙ echo_args-spaced args s1 ps
      ∙ ap (λ l. ok (0, record s { stdout = l })) out

  -- `echo` of arguments without NULs, quotes and backslashes, of which the first does not start with
  -- `$` and is not empty, prints each with a space behind it, and a newline.
  pub yash_echo-plain :
      (cmd w rest : List ℕ) (c : ℕ) (args : List (List ℕ × List ℕ)) (s : Shell y)
      → c ≢ b'$'
      → ArePlain ((c ∷ w, rest) ∷ args)
      → yash_echo (cmd ∷ map bytes ((c ∷ w, rest) ∷ args)) s
        ≡ ok (0, record s { stdout = s.stdout ++ (spaced ((c ∷ w, rest) ∷ args) ++ (10 ∷ [])) })
  unfolding yash_echo
  yash_echo-plain cmd w rest c args s ne p =
      ground (arith, ==_ne c b'$' ne) ∙ echo_args-spaced ((c ∷ w, rest) ∷ args) s p
