-- ===== src/Tools/Du/Rounds.antt =====
-- The numbers that `du` prints.
use native.Mathlib.Nat.{div-add-mod', mod-lt, add-mul, pow-le-pow_right}
use yaup.Base.{
  ℕ, zero, suc, ◌+◌, ◌*◌, ◌/◌, ◌%◌, ◌^◌, ◌<◌, ◌≤◌, ◌≡◌, refl, ap, ◌⊎◌, Bool-cases, inl, inr, true,
  false, List, [], ◌∷◌, ◌++◌, if◌then◌else◌, ◌==◌, leb, ltb, arith,
}
use yaup.Shell.Text.{text}
use yaup.Kernel.Host.{Stat}
use yaup.Tools.Os.{Os, FilePath, Entry, gives}
use yaup.Tools.Program.{Prog, Process, done, s_isdir, s_isreg}
use yaup.Tools.Program.Args.{printing}
use yaup.Tools.Program.Walk.{is_dots}
use yaup.Tools.Find.Flat.{IsFlat}
use yaup.Tools.Du.{round_even, to_double, put_tenths, size_text, du_line, du_loop, dir_du, du_main}

-- Down for at most a half, and up for at least a half.
round_even-cases :
    (n d : ℕ)
    → ((round_even n d ≡ n / d) × (2 * (n % d) ≤ d))
      ⊎ ((round_even n d ≡ n / d + 1) × (d ≤ 2 * (n % d)))
unfolding round_even
round_even-cases n d = elim (Bool-cases (ltb (2 * (n % d)) d)) [
  | inl less ↦ inl (ground arith, ground arith)
  | inr more ↦ elim (Bool-cases (ltb d (2 * (n % d)))) [
    | inl above ↦ inr (ground arith, ground arith)
    | inr half ↦ elim (Bool-cases (n / d % 2 == 0)) [
      | inl even ↦ inl (ground arith, ground arith)
      | inr odd ↦ inr (ground arith, ground arith)
    ]
  ]
]

-- A quotient that is rounded is at most half of the divisor away.
round_even-near :
    (n d : ℕ)
    → 0 < d
    → (2 * n ≤ 2 * (round_even n d * d) + d) × (2 * (round_even n d * d) ≤ 2 * n + d)
round_even-near n d pos =
    let whole = div-add-mod' n d in
    let small = mod-lt n pos in
    elim (round_even-cases n d) [
      | inl (e, less) ↦
          let product : round_even n d * d ≡ n / d * d = ap (λ q. q * d) e in
          (omega (arith, whole, product), omega (arith, whole, product))
      | inr (e, more) ↦
          let product : round_even n d * d ≡ (n / d + 1) * d = ap (λ q. q * d) e in
          let next = add-mul (n / d) 1 d in
          (omega (arith, whole, product, next), omega (arith, whole, product, next))
    ]

to_double-exact : (more n : ℕ) → n < 2 ^ 53 → to_double more n ≡ n
unfolding to_double
to_double-exact zero n small = refl
to_double-exact (suc more) n small =
    let wide : 2 ^ 53 ≤ 2 ^ (53 + more) = pow-le-pow_right (omega arith) {i = 53} (omega arith) in
    ground (arith, to_double-exact more n small)

-- The sizes of the units B, K and M.
abbrev pub IsUnit : ℕ → ℕ → Type 0
IsUnit w u = ((w ≡ 1) × (u ≡ 66)) ⊎ (((w ≡ 1024) × (u ≡ 75)) ⊎ ((w ≡ 1024 * 1024) × (u ≡ 77)))

-- What `du` writes for a size below 2 ^ 53 is a number of tenths of one of the units B, K and M, and at
-- most half a tenth of the unit away from the size.
pub du_line-near :
    (size : ℕ) (name : FilePath)
    → size < 2 ^ 53
    → (t : ℕ) × (w : ℕ) × (u : ℕ) × (du_line size name
        ≡ (put_tenths t ++ (u ∷ [])) ++ (text " \t " ++ (name ++ (10 ∷ []))))
      × IsUnit w u
      × (2 * (size * 10) ≤ 2 * (t * w) + w)
      × (2 * (t * w) ≤ 2 * (size * 10) + w)
unfolding du_line size_text
du_line-near size name small = elim (Bool-cases (leb size 1024)) [
  | inl bytes ↦ (
    size * 10,
    1,
    66,
    ground (arith, to_double-exact 11 size small),
    inl (refl, refl),
    omega arith,
    omega arith,
  )
  | inr more ↦ elim (Bool-cases (leb size 102400)) [
    | inl kilo ↦
        let (low, high) = round_even-near (size * 10) 1024 (omega arith) in
        (
          round_even (size * 10) 1024,
          1024,
          75,
          ground (arith, to_double-exact 11 size small),
          inr (inl (refl, refl)),
          low,
          high,
        )
    | inr mega ↦
        let (low, high) = round_even-near (size * 10) (1024 * 1024) (omega arith) in
        (
          round_even (size * 10) (1024 * 1024),
          1024 * 1024,
          77,
          ground (arith, to_double-exact 11 size small),
          inr (inr (refl, refl)),
          low,
          high,
        )
  ]
]

-- The entries but "." and "..".
unfoldable pub count_entries : List Entry → ℕ
count_entries [] = 0
count_entries (d ∷ ds) = if is_dots d.d_name then count_entries ds else count_entries ds + 1

module _ (o : Os) where
  du_loop-flat :
      (walk : FilePath → Prog (Process o) ℕ) (path : FilePath) (ds : List Entry) (st st' : Stat)
      (dsize : ℕ) (s : Process o)
      → o.stat s.world path ≡ gives st'
      → IsFlat ds
      → dsize < 2 ^ 64
      → du_loop walk path ds st dsize s ≡ done ((dsize + count_entries ds * st'.st_size) % 2 ^ 64) s
  unfolding du_loop count_entries
  du_loop-flat walk path [] st st' dsize s found flat small = ground arith
  du_loop-flat walk path (d ∷ ds) st st' dsize s found (plain, flat) small =
      elim (Bool-cases (is_dots d.d_name)) [
        | inl dots ↦ ground (arith, du_loop-flat walk path ds st st' dsize s found flat small)
        | inr other ↦
            let next = (dsize + st'.st_size) % 2 ^ 64 in
            let sum : (next + count_entries ds * st'.st_size) % 2 ^ 64
                ≡ (dsize + (count_entries ds + 1) * st'.st_size) % 2 ^ 64 =
              omega arith in
            ground (arith, sum, du_loop-flat walk path ds st' st' next s found flat (omega arith))
      ]

  -- `du` of a directory that opens and has no directories but "." and ".." writes, for each entry but
  -- these, the size that `stat` gives for the argument itself, looked up from within the directory.
  -- The total wraps at 2 ^ 64.
  pub du_main-flat :
      (fuel : ℕ) (inner st st' st'' : Stat) (a : FilePath) (ds : List Entry) (s : Process o)
      → o.stat s.world a ≡ gives st'
      → s_isreg (st'.st_mode) ≡ false
      → s_isdir (st'.st_mode) ≡ true
      → o.entries s.world a ≡ gives ds
      → IsFlat ds
      → o.stat (o.chdir s.world a) a ≡ gives st''
      → du_main o (suc fuel) inner st (a ∷ []) s
        ≡ done 0 (
            printing o
              (record s { world = o.chdir (o.chdir s.world a) (text "..") })
              (du_line (count_entries ds * st''.st_size % 2 ^ 64) a))
  unfolding du_main dir_du
  du_main-flat fuel inner st st' st'' a ds s found irregular dir opened flat within =
      let t = record s { world = o.chdir s.world a } in
      ground (arith, du_loop-flat (dir_du fuel inner) a ds inner st'' 0 t within flat (omega arith))
