-- ===== src/Shell/LineTests.antt =====
-- The theorems on a line and a round of the shell at a small system.
use yaup.Base.{
  ℕ, zero, suc, ◌≡◌, refl, ap, true, List, [], ◌∷◌, ◌++◌, some, length, take, map, get_elem?,
  find_index, ok, arith, ◌>>=◌,
}
use yaup.Shell.Text.{text, string_of, same_text, is_delim}
use yaup.Shell.Text.Laws.{AreStrings}
use yaup.Shell.Line.{read_line, split_line}
use yaup.Shell.Line.Split.{words, attach}
use yaup.Shell.Line.Words.{split_line-words}
use yaup.Shell.Line.Read.{read_line-line}
use yaup.Shell.Builtins.{echo, builtins}
use yaup.Shell.Main.{put_status, call, run_line, has_memory}
use yaup.Shell.Main.Round.{run_line-builtin}
use yaup.Shell.Sample.{
  zeros, zeros-IsGranting, system, shell, command, command-IsText, echo_name, echo_name-IsText,
}

words-command : words command ≡ (b'l' ∷ b's' ∷ []) ∷ (b'-' ∷ b'l' ∷ []) ∷ []
unfolding words attach is_delim
words-command = refl

split_line-words_example :
    (tokens : List (List ℕ)) × (buff : List ℕ) × (split_line (λ n. true) (1 ∷ 2 ∷ []) command
      ≡ ok (some (tokens, buff)))
    × (map string_of tokens ≡ words command)
    × AreStrings tokens
split_line-words_example =
    split_line-words (λ n. true) (1 ∷ 2 ∷ []) command refl command-IsText
      (ground (arith, ap length words-command))

-- Sixty-four words of one letter.
abbrev letters : ℕ → List ℕ
letters zero = []
letters (suc n) = 97 ∷ 32 ∷ letters n

words-letters : (n : ℕ) → length (words (letters n)) ≡ n
unfolding words attach is_delim
words-letters zero = refl
words-letters (suc n) = ap suc (words-letters n)

read_line-line_example :
    (out : List ℕ) × (read_line zeros (command ++ (10 ∷ 7 ∷ [])) ≡ ok (some out, 7 ∷ []))
    × (take 5 out ≡ command)
    × (get_elem? out 5 ≡ some 0)
read_line-line_example =
    read_line-line zeros command (7 ∷ []) zeros-IsGranting
      (omega arith, (omega arith, (omega arith, (omega arith, (omega arith, tt))))) (omega arith)

granted : has_memory system 5 512 ≡ true
unfolding has_memory
granted = refl

-- "echo ls", with its NUL.
abbrev echo_line : List ℕ
echo_line = echo_name ++ (32 ∷ b'l' ∷ b's' ∷ 0 ∷ [])

words-echo_line : words (string_of echo_line) ≡ echo_name ∷ (b'l' ∷ b's' ∷ []) ∷ []
unfolding words attach is_delim string_of
words-echo_line = refl

echo_index : find_index (λ t. same_text t echo_name) builtins ≡ some 2
unfolding find_index same_text text
echo_index = refl

run_line-builtin_example :
    (tokens : List (List ℕ)) × (map string_of tokens ≡ echo_name ∷ (b'l' ∷ b's' ∷ []) ∷ [])
    × (run_line 7 echo_line shell ≡ (call 7 tokens echo >>= put_status) shell)
run_line-builtin_example =
    run_line-builtin 7 shell echo_line echo_name ((b'l' ∷ b's' ∷ []) ∷ []) 2 echo granted
      words-echo_line (omega (arith, ap length words-echo_line)) echo_name-IsText echo_index refl

words-blank : words (string_of (32 ∷ 9 ∷ 0 ∷ [])) ≡ []
unfolding words is_delim string_of
words-blank = refl
