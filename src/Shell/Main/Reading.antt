-- ===== src/Shell/Main/Reading.antt =====
-- A round of the shell hands the line it reads to `run_line`.
use yaup.Base.{
  ℕ, ◌-◌, ◌^◌, ◌<◌, ◌≡◌, some, List, [], ◌∷◌, ◌++◌, length, take, get_elem?, arith, ==_ne,
}
use yaup.Shell.Text.{string_of, text}
use yaup.Shell.Text.Laws.{IsText}
use yaup.Shell.State.{System, Shell}
use yaup.Shell.Line.Read.{IsGranting, IsLine, read_line-line}
use yaup.Shell.Main.{round, run_line}

-- A string is what is before the first NUL.
string_of-take :
    (bytes s : List ℕ)
    → IsText s
    → take (length s) bytes ≡ s
    → get_elem? bytes (length s) ≡ some 0
    → string_of bytes ≡ s
unfolding string_of
string_of-take [] s t e z = ground arith
string_of-take (c ∷ bytes) [] t e z = ground arith
string_of-take (c ∷ bytes) (d ∷ s) (n, t) e z =
    let same : c ≡ d = ground arith in
    let rest : take (length s) bytes ≡ s = ground arith in
    ground (arith, ==_ne d 0 n, string_of-take bytes s t rest z)

module _ {y : System} (state : ℕ) where
  -- When every allocation is granted and the first variable has a value, a round prints the prompt,
  -- takes the characters up to the newline from the input and runs them as a line, if they are no
  -- NULs and fewer than 2 ^ 22 - 1.
  pub round-run_line :
      (s : Shell y) (user line rest : List ℕ)
      → IsGranting (y.malloc s.world)
      → get_elem? s.envp_value 0 ≡ some (some user)
      → s.stdin ≡ line ++ (10 ∷ rest)
      → IsText line
      → IsLine line
      → length line < 2 ^ 22 - 1
      → (out : List ℕ) × (string_of out ≡ line)
        × (round state s
            ≡ run_line state out (record s {
              stdin = rest;
              stdout = s.stdout ++ (b'[' ∷ (string_of user ++ text "]: "));
            }))
  unfolding round
  round-run_line s user line rest grants prompt input t l small =
      let (out, r, same, z) = read_line-line (y.malloc s.world) line rest grants l small in
      (out, string_of-take out line t same z, ground (arith, prompt, input, r))
