-- ===== src/Tools/Free.antt =====
-- busybox/free.c
pub mod Ends
use yaup.Base.{
  ℕ, zero, suc, ◌-◌, ◌*◌, Bool, true, false, ◌||◌, Option, none, some, List, [], ◌∷◌, ◌++◌, length,
  drop, replicate, get_or, if◌then◌else◌, ◌==◌,
}
use yaup.Errno.{einval}
use yaup.Shell.Text.{text, same_text}
use yaup.Tools.Os.{Os, FilePath}
use yaup.Tools.Program.{
  Prog, Process, ◌>>=◌, ◌>>◌, pure, exits, faults, runs_on, err, open_read, bytes_of, put,
}
use yaup.Tools.Program.Scan.{line_of, meets_end}
use yaup.Tools.Nl.{get_line}

-- The numbers of type `double`: `atof`, the arithmetic, and what "%-12.1f" writes.
pub record Doubles : Type 1 where
  pub Double : Type 0
  pub zero_value : Double
  pub atof : List ℕ → Double
  pub add : Double → Double → Double
  pub over : Double → ℕ → Double
  pub put_12 : Double → List ℕ

-- The delimiters of `strtok`: " :"
abbrev pub is_separator : ℕ → Bool
is_separator c = (c == 32) || (c == 58)

unfoldable pub skip_separators : List ℕ → List ℕ
skip_separators [] = []
skip_separators (c ∷ cs) = let rest = skip_separators cs in if is_separator c then rest else c ∷ cs

unfoldable pub field_name : List ℕ → List ℕ
field_name [] = []
field_name (c ∷ cs) = let rest = field_name cs in if is_separator c then [] else c ∷ rest

unfoldable pub after_name : List ℕ → List ℕ
after_name [] = []
after_name (c ∷ cs) = let rest = after_name cs in if is_separator c then cs else rest

-- The string in the buffer after the first `strtok`: a NUL stands behind the token.
unfoldable pub cut_name : List ℕ → List ℕ
cut_name [] = []
cut_name (c ∷ cs) = let rest = cut_name cs in if is_separator c then c ∷ rest else c ∷ field_name cs

-- "%-6s" and "%-12s"
unfoldable pub padded : ℕ → List ℕ → List ℕ
padded n s = s ++ replicate (n - length s) 32

module _ (r : Doubles) where
  -- `mem`, without `mem[1]`, which is not used.
  pub record Memory : Type 0 where
    pub total : r.Double
    pub free_memory : r.Double
    pub shared : r.Double
    pub buffers : r.Double
    pub available : r.Double

  -- What a line of the name changes, or none if the name is none of the six.
  unfoldable pub change_of : List ℕ → Option (r.Double → Memory → Memory)
  change_of name =
      if same_text name (text "MemTotal")
      then some (λ x mem. record mem { total = x })
      else (if same_text name (text "MemFree")
          then some (λ x mem. record mem { free_memory = x })
          else (if same_text name (text "MemAvailable")
              then some (λ x mem. record mem { available = x })
              else (if same_text name (text "Buffers") || same_text name (text "Cached")
                  then some (λ x mem. record mem { buffers = r.add mem.buffers x })
                  else (if same_text name (text "Shmem")
                      then some (λ x mem. record mem { shared = x })
                      else none))))

  -- A line without a token gives `strcmp` a null pointer, and one without a second token `atof`.
  unfoldable pub read_field : List ℕ → ℕ → Memory → Option Memory
  read_field line n mem =
      let name = field_name (skip_separators line) in
      let value = field_name (skip_separators (after_name (skip_separators line))) in
      elim name [
        | [] ↦ none
        | c ∷ cs ↦ elim (change_of (c ∷ cs)) [
          | none ↦ some mem
          | some change ↦ elim value [
            | [] ↦ none
            | d ∷ ds ↦ some (change (r.over (r.atof (d ∷ ds)) n) mem)
          ]
        ]
      ]

  module _ {o : Os} where
    -- What follows a line: at the end of the file the loop is left.
    abbrev pub go_on :
        Bool → Option Memory → (Memory → Prog (Process o) Memory) → Prog (Process o) Memory
    go_on ended none next = faults
    go_on true (some mem) next = pure mem
    go_on false (some mem) next = next mem

    -- `while (!feof(fp))` for a number of rounds. `held` is the string in the line's buffer, which
    -- `strtok` has cut.
    unfoldable pub meminfo_loop : ℕ → ℕ → List ℕ → Memory → List ℕ → Prog (Process o) Memory
    meminfo_loop zero n held mem fp = runs_on
    meminfo_loop (suc fuel) n held mem fp =
        let size = suc (length fp) in
        let line = line_of size fp in
        let string = get_line line held in
        go_on (meets_end size fp) (read_field string n mem)
          (λ mem'. meminfo_loop fuel n (cut_name string) mem' (drop (length line) fp))

    -- `line` points to a pointer that was never set. It works only if the memory happens to hold a
    -- null pointer; then `fresh` is the string that the first buffer holds. `mem` is what the array
    -- holds at first.
    unfoldable pub print_meminfo :
        Option (List ℕ) → Memory → List ℕ → ℕ → Prog (Process o) (Unit {0})
    print_meminfo none mem fp n = faults
    print_meminfo (some fresh) mem fp n =
        meminfo_loop (suc (suc (length fp))) n fresh (record mem { buffers = r.zero_value }) fp
        >>= λ mem'.
            put (
              padded 6 (text " ")
              ++ (32 ∷ padded 12 (text "Total"))
              ++ (32 ∷ padded 12 (text "Used"))
              ++ (32 ∷ padded 12 (text "Free"))
              ++ (32 ∷ padded 12 (text "Shared"))
              ++ (32 ∷ padded 12 (text "Buff/Cache"))
              ++ (32 ∷ padded 12 (text "Available"))
              ++ (10 ∷ []))
            >> put (
                padded 6 (text "Mem: ")
                ++ (32 ∷ r.put_12 mem'.total)
                ++ (32 ∷ r.put_12 r.zero_value)
                ++ (32 ∷ r.put_12 mem'.free_memory)
                ++ (32 ∷ r.put_12 mem'.shared)
                ++ (32 ∷ r.put_12 mem'.buffers)
                ++ (32 ∷ r.put_12 mem'.available)
                ++ (10 ∷ []))
            >> put (text "Swap: Not yet implemented ;)\n")

  -- The divisor of an option, or none: `1/1024` is 0.
  unfoldable pub factor_of : ℕ → Option ℕ
  factor_of c =
      if c == 98
      then some 0
      else (if c == 107
          then some 1
          else (if c == 109 then some 1024 else (if c == 103 then some (1024 * 1024) else none)))

  module _ (o : Os) where
    unfoldable pub free_main : Option (List ℕ) → Memory → List FilePath → Prog (Process o) ℕ
    free_main memory mem args = open_read (text "/proc/meminfo") >>= λ opened.
        if opened
        then (bytes_of (text "/proc/meminfo") >>= λ fp. elim args [
          | [] ↦ print_meminfo memory mem fp 1 >> pure 0
          | a ∷ more ↦
              if get_or a 0 0 == 45
              then elim (factor_of (get_or a 1 0)) [
                | none ↦ put (text "HELP!") >> exits einval
                | some n ↦ print_meminfo memory mem fp n >> pure 0
              ]
              else (put (text "HELP!") >> exits einval)
        ])
        else err
