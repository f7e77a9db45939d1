-- ===== src/Shell/Main/Round.antt =====
-- What a line does in the shell.
use yaup.Base.{
  ℕ, ◌+◌, ◌<◌, ◌≡◌, refl, ap, ◌∙◌, Bool, true, some, List, [], ◌∷◌, ◌++◌, length, drop, map,
  get_elem?, find_index, ok, fault, arith, ℤ, pos, ◌>>=◌,
}
use yaup.Shell.Text.{string_of, same_text}
use yaup.Shell.Text.Laws.{IsText, AreStrings, string_of-IsText}
use yaup.Shell.State.{System, Shell}
use yaup.Shell.Line.{split_line}
use yaup.Shell.Line.Split.{words}
use yaup.Shell.Line.Words.{split_line-words}
use yaup.Shell.Builtins.{Builtin, builtins, functions, select_cmd}
use yaup.Shell.Builtins.Select.{select_cmd-find_index, builtins-AreTexts, selected}
use yaup.Shell.Main.{first, call, run_index, put_status, run_line, run_tokens, has_memory}

module _ {y : System} (state : ℕ) (s : Shell y) (line : List ℕ) where
  grants : ℕ → Bool
  grants = has_memory y s.world

  beyond : List ℕ
  beyond = drop (length (string_of line) + 1) line

  run_line-split :
      (tokens : List (List ℕ)) (buff : List ℕ) (i : ℤ)
      → split_line grants beyond (string_of line) ≡ ok (some (tokens, buff))
      → select_cmd builtins (first tokens) ≡ ok i
      → run_line state line s ≡ (run_index state i tokens >>= put_status) s
  unfolding run_line run_tokens beyond grants
  run_line-split tokens buff i r sel = ground arith

  no_tokens : (tokens : List (List ℕ)) → map string_of tokens ≡ [] → tokens ≡ []
  no_tokens [] e = refl
  no_tokens (t ∷ tokens) e = ground arith

  -- With memory for the tokens, a line without a word makes the shell call entry 2 ^ 32 - 2 of its
  -- table of functions: a fault.
  pub run_line-blank :
      has_memory y s.world 512 ≡ true → words (string_of line) ≡ [] → run_line state line s ≡ fault
  unfolding run_line run_tokens run_index select_cmd beyond grants
  run_line-blank memory blank =
      let (tokens, buff, r, m, nuls) =
        split_line-words grants beyond (string_of line) memory (string_of-IsText line)
          (ground (arith, ap length blank)) in
      let empty = no_tokens tokens (m ∙ blank) in ground (arith, ap length empty)

  first_token :
      (tokens : List (List ℕ)) (w : List ℕ) (ws : List (List ℕ))
      → map string_of tokens ≡ w ∷ ws
      → AreStrings tokens
      → (rest : List ℕ) × (first tokens ≡ some (w ++ (0 ∷ rest)))
  first_token [] w ws e nuls = ground arith
  first_token (t ∷ tokens) w ws e ((rest, q), nuls) =
      (rest, ap some (q ∙ ap (λ a. a ++ (0 ∷ rest)) (ground arith)))

  -- With memory, a line of fewer than 64 words, the first of which names a command of the shell,
  -- runs the command at the same place of the table on arguments that are the words, and stores its
  -- status.
  pub run_line-builtin :
      (w : List ℕ) (ws : List (List ℕ)) (k : ℕ) (b : Builtin)
      → has_memory y s.world 512 ≡ true
      → words (string_of line) ≡ w ∷ ws
      → length (words (string_of line)) < 64
      → IsText w
      → find_index (λ t. same_text t w) builtins ≡ some k
      → get_elem? functions k ≡ some b
      → (args : List (List ℕ)) × (map string_of args ≡ w ∷ ws)
        × (run_line state line s ≡ (call state args b >>= put_status) s)
  unfolding run_index grants
  run_line-builtin w ws k b memory e few t found entry =
      let (tokens, buff, r, m, nuls) =
        split_line-words grants beyond (string_of line) memory (string_of-IsText line) few in
      let (rest, f) = first_token tokens w ws (m ∙ e) nuls in
      let sel : select_cmd builtins (first tokens) ≡ ok (pos k) =
        ap (select_cmd builtins) f
        ∙ select_cmd-find_index builtins w rest t builtins-AreTexts
        ∙ ap (λ o. ok (selected 0 o)) found
        ∙ ap (λ n. ok (pos n)) (omega arith) in
      (tokens, m ∙ e, run_line-split tokens buff (pos k) r sel ∙ ground arith)
