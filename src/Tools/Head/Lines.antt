-- ===== src/Tools/Head/Lines.antt =====
-- What `head` prints, and its wait for a space.
use yaup.Base.{
  ℕ, zero, suc, ◌+◌, ◌^◌, ◌<◌, ◌≡◌, refl, Bool-cases, inl, inr, none, some, List, [], ◌∷◌,
  append_assoc, length, if◌then◌else◌, ◌==◌, arith,
}
use yaup.Shell.Text.{text, atoi}
use yaup.Tools.Os.{Os}
use yaup.Tools.Program.{Process, done}
use yaup.Tools.Program.Args.{printing}
use yaup.Tools.Head.{wait_space, head_loop, head_until, head}

-- The bytes in front of the newline with a number, from 1, or all of them.
unfoldable pub before_newline : ℕ → List ℕ → List ℕ
before_newline zero fp = []
before_newline (suc n) [] = []
before_newline (suc n) (c ∷ fp) =
    let further = before_newline n fp in
    let same = c ∷ before_newline (suc n) fp in
    if c == 10 then elim n [ zero ↦ [] | suc m ↦ c ∷ further ] else same

module _ (o : Os) where
  head_loop-printing :
      (c : ℕ) (fp : List ℕ) (i n lines max_lines : ℕ) (s : Process o)
      → lines ≡ i + suc n
      → lines < max_lines
      → max_lines < 2 ^ 31
      → head_loop (c ∷ fp) i lines max_lines s
        ≡ done tt (printing o s (c ∷ before_newline (suc n) fp))
  unfolding head_loop before_newline
  head_loop-printing c [] i n lines max_lines s l1 l2 l3 = ground arith
  head_loop-printing c (d ∷ fp) i zero lines max_lines s l1 l2 l3 = elim (Bool-cases (d == 10)) [
    | inl e ↦ ground arith
    | inr e ↦
        let t = printing o s (c ∷ []) in
        ground (
          arith,
          head_loop-printing d fp i 0 lines max_lines t l1 l2 l3,
          append_assoc s.stdout (c ∷ []) (d ∷ before_newline 1 fp),
        )
  ]
  head_loop-printing c (d ∷ fp) i (suc n) lines max_lines s l1 l2 l3 =
      let t = printing o s (c ∷ []) in
      elim (Bool-cases (d == 10)) [
        | inl e ↦ ground (
          arith,
          head_loop-printing d fp (i + 1) n lines max_lines t (omega arith) l2 l3,
          append_assoc s.stdout (c ∷ []) (d ∷ before_newline (suc n) fp),
        )
        | inr e ↦ ground (
          arith,
          head_loop-printing d fp i (suc n) lines max_lines t l1 l2 l3,
          append_assoc s.stdout (c ∷ []) (d ∷ before_newline (suc (suc n)) fp),
        )
      ]

  -- Of a file that is not empty `head` prints the first byte, and the others up to the newline with
  -- the number `lines`, which is not printed: a newline that is the first byte is not counted. The
  -- variable COLUMNS holds a larger number than `lines`, and `lines` is not 0.
  pub head-before_newline :
      (c : ℕ) (fp columns : List ℕ) (n : ℕ) (s : Process o)
      → o.getenv s.world (text "COLUMNS") ≡ some columns
      → suc n < atoi columns
      → atoi columns < 2 ^ 31
      → head (c ∷ fp) (suc n) s ≡ done tt (printing o s (c ∷ before_newline (suc n) fp))
  unfolding head head_until
  head-before_newline c fp columns n s e l2 l3 =
      ground (arith, head_loop-printing c fp 0 n (suc n) (atoi columns) s (omega arith) l2 l3)

-- A wait that is not over after a round for each character of the input is never over.
pub wait_space-none :
    (fuel : ℕ) (stdin : List ℕ)
    → wait_space (length stdin) stdin ≡ none
    → wait_space fuel stdin ≡ none
unfolding wait_space
wait_space-none zero stdin e = refl
wait_space-none (suc fuel) [] e = wait_space-none fuel [] refl
wait_space-none (suc fuel) (c ∷ stdin) e = ground (arith, wait_space-none fuel stdin)
