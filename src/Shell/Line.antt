-- ===== src/Shell/Line.antt =====
-- include/shell.h: reading a line and splitting it into words. The sizes are bytes; a pointer has
-- 8. A signed overflow is a fault.
pub mod Split
pub mod Words
pub mod Read
use yaup.Base.{
  ℕ, zero, suc, ◌+◌, ◌-◌, ◌*◌, ◌^◌, Bool, true, false, Option, none, some, List, [], ◌∷◌, ◌++◌,
  if◌then◌else◌, ◌==◌, leb, ltb, length, get_elem?, set, take, drop, Run, ok, panic, fault,
  out_of_fuel, ℤ, pos, negsuc,
}
use yaup.Shell.Text.{skip_delims, token_of, after_token}

abbrev pub buff_sz : ℕ
buff_sz = 512

-- `buff[i] = c`
unfoldable pub store : List ℕ → ℕ → ℕ → Run (List ℕ)
store buff i c = elim (get_elem? buff i) [ none ↦ fault | some old ↦ ok (set buff i c) ]

-- `fresh n` is what an allocation of `n` bytes holds, or none when it is refused. The contents are
-- kept by `realloc`.
module _ (fresh : ℕ → Option (List ℕ)) where
  unfoldable pub realloc : List ℕ → ℕ → Option (List ℕ)
  realloc buff n = elim (fresh n) [
    | none ↦ none
    | some bytes ↦ some (take n buff ++ drop (length buff) bytes)
  ]

  -- The buffer and its size after the character at `i - 1` is stored.
  unfoldable pub grow : ℕ → ℕ → List ℕ → Run (Option (ℕ × List ℕ))
  grow i bufsiz buff =
      if leb buff_sz i
      then (if leb (2 ^ 31) (bufsiz + buff_sz)
          then fault
          else elim (realloc buff (bufsiz + buff_sz)) [
            | none ↦ ok none
            | some buff' ↦ ok (some (bufsiz + buff_sz, buff'))
          ])
      else ok (some (bufsiz, buff))

  -- The line's buffer, or none for a null pointer, and what is left of the input.
  unfoldable pub read_chars : List ℕ → ℕ → ℕ → List ℕ → Run (Option (List ℕ) × List ℕ)
  read_chars [] i bufsiz buff = elim (store buff i 0) [
    | ok buff' ↦ ok (some buff', [])
    | other ↦ fault
  ]
  read_chars (c ∷ cs) i bufsiz buff =
      if c == 10
      then elim (store buff i 0) [ ok buff' ↦ ok (some buff', cs) | other ↦ fault ]
      else elim (store buff i c) [
        | ok buff' ↦ elim (grow (i + 1) bufsiz buff') [
          | ok none ↦ ok (none, cs)
          | ok (some (bufsiz', buff2)) ↦ read_chars cs (i + 1) bufsiz' buff2
          | other ↦ fault
        ]
        | other ↦ fault
      ]

  unfoldable pub read_line : List ℕ → Run (Option (List ℕ) × List ℕ)
  read_line stdin = elim (fresh buff_sz) [
    | none ↦ ok (none, stdin)
    | some buff ↦ read_chars stdin 0 buff_sz buff
  ]

-- The vector of the tokens has room for `room` bytes. `tokens[i] = token` needs all 8 of its slot.
unfoldable pub has_slot : ℕ → ℕ → Bool
has_slot i room = leb (8 * (i + 1)) room

-- `grants n` tells whether an allocation of `n` bytes is granted; a line's tokens are none for a null
-- pointer. `beyond` is what the line's buffer holds behind the line's NUL.
module _ (grants : ℕ → Bool) (beyond : List ℕ) where
  -- The count that is allotted and the vector's bytes, or none when they are refused: `realloc` is
  -- asked for as many bytes as the count, not for its multiple.
  unfoldable pub grow_tokens : ℕ → ℕ → ℕ → Option (ℕ × ℕ)
  grow_tokens i buffsize room =
      if leb buffsize i
      then (if grants (buffsize + 64) then some (buffsize + 64, buffsize + 64) else none)
      else some (buffsize, room)

  -- The bytes behind a token, if `rest` is what `strtok` has not read and `behind` the buffer there.
  unfoldable pub terminated : List ℕ → List ℕ → List ℕ
  terminated [] behind = 0 ∷ beyond
  terminated (d ∷ rest) behind = 0 ∷ behind

  -- The tokens, each with the bytes from its start to the end of the line's buffer, and the buffer
  -- afterwards from the given place on: `strtok` writes a NUL behind each token.
  unfoldable pub put_token :
      List ℕ
      → List ℕ
      → Run (Option (List (List ℕ) × List ℕ))
      → Run (Option (List (List ℕ) × List ℕ))
  put_token line start (ok none) = ok none
  put_token line start (ok (some (tokens, behind))) =
      let bytes = token_of start ++ terminated (after_token start) behind in
      ok (some (bytes ∷ tokens, take (length line - length start) line ++ bytes))
  put_token line start (panic m) = panic m
  put_token line start fault = fault
  put_token line start out_of_fuel = out_of_fuel

  unfoldable pub split_loop : ℕ → ℕ → ℕ → ℕ → List ℕ → Run (Option (List (List ℕ) × List ℕ))
  split_loop zero i buffsize room line = out_of_fuel
  split_loop (suc fuel) i buffsize room line =
      let start = skip_delims line in
      let rest : Run (Option (List (List ℕ) × List ℕ)) = elim (grow_tokens (i + 1) buffsize room) [
        | none ↦ ok none
        | some (buffsize', room') ↦
            split_loop fuel (i + 1) buffsize' room' (drop 1 (after_token start))
      ] in
      if has_slot i room
      then elim start [
        | [] ↦ ok (some ([], line ++ (0 ∷ beyond)))
        | _ ∷ _ ↦ put_token line (skip_delims line) rest
      ]
      else fault

  -- One token needs one character at least.
  unfoldable pub split_line : List ℕ → Run (Option (List (List ℕ) × List ℕ))
  split_line line =
      if grants (64 * 8) then split_loop (length line + 1) 0 64 (64 * 8) line else ok none
