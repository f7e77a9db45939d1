-- ===== src/Kernel/Files/Descriptors.antt =====
-- `fdget` and `fget`: which descriptor and which entry are given.
use yaup.Base.{
  ℕ, zero, suc, ◌+◌, ◌-◌, ◌<◌, ◌≤◌, ◌≡◌, refl, ap, ◌∙◌, ◌⊎◌, inl, inr, Option, none, some, List,
  ◌∷◌, arith, length, get_elem?, get_elem?-get_or, get_or, Option-cases, ok,
}
use native.Mathlib.Decide.{ℕ_discrete}
use yaup.Kernel.Host.{Host, Kernel, Proc, acquire, release, proc_table_lock, nr_ofiles}
use yaup.Kernel.Files.{fdget_scan, fdget}

-- Descriptor `fd` of the table is free, and those from `low` to it are taken.
abbrev pub IsTaken : List (Option ℕ) → ℕ → Type 0
IsTaken filp j = (f : ℕ) × (get_elem? filp j ≡ some (some f))

abbrev pub IsLowest : List (Option ℕ) → ℕ → ℕ → Type 0
IsLowest filp low fd =
    (low ≤ fd) × (get_elem? filp fd ≡ some none) × ((j : ℕ) → low ≤ j → j < fd → IsTaken filp j)

IsTaken-range :
    (filp : List (Option ℕ)) (fd m : ℕ)
    → IsTaken filp fd
    → ((j : ℕ) → fd + 1 ≤ j → j < m → IsTaken filp j)
    → (j : ℕ) → fd ≤ j
    → j < m
    → IsTaken filp j
IsTaken-range filp fd m t all j a b = elim (ℕ_discrete j fd) [
  | yes e ↦ (t.0, ap (get_elem? filp) e ∙ t.1)
  | no n ↦ all j (omega arith) b
]

fdget_scan_lem :
    (filp : List (Option ℕ)) (n fd : ℕ)
    → fd + n ≤ length filp
    → ((r : ℕ) × (fdget_scan filp n fd ≡ ok (some r)) × IsLowest filp fd r × (r < fd + n))
      ⊎ (fdget_scan filp n fd ≡ ok none) × ((j : ℕ) → fd ≤ j → j < fd + n → IsTaken filp j)
unfolding fdget_scan
fdget_scan_lem filp zero fd le = inr (refl, λ j a b. absurd (omega arith))
fdget_scan_lem filp (suc n) fd le =
    let g = get_elem?-get_or filp fd none (omega arith) in
    elim (Option-cases (get_or filp fd none)) [
      | inl e ↦ inl (
        fd,
        ground arith,
        (omega arith, ground arith, λ j a b. absurd (omega arith)),
        omega arith,
      )
      | inr (f, e) ↦
          let taken : IsTaken filp fd = (f, ground arith) in
          elim (fdget_scan_lem filp n (fd + 1) (omega arith)) [
            | inl (r, q, low, lt) ↦ inl (
              r,
              ground arith,
              (omega arith, low.1, λ j a b. IsTaken-range filp fd r taken low.2 j a b),
              omega arith,
            )
            | inr (q, all) ↦ inr (
              ground arith,
              λ j a b. IsTaken-range filp fd (fd + 1 + n) taken all j a (omega arith),
            )
          ]
    ]

-- For a current process whose table has NR_OFILES entries, `fdget` gives the lowest free descriptor
-- above the standard three, or -1 exactly when none is free; then the lock of the process table
-- stays taken.
pub fdget_lem :
    (h : Host) (s : Kernel h) (p : Proc)
    → s.current ≡ some p
    → length p.p_filp ≡ nr_ofiles
    → ((fd : ℕ) × (fdget h s
          ≡ ok (
            some fd,
            record s { calls = release proc_table_lock ∷ acquire proc_table_lock ∷ s.calls },
          ))
        × IsLowest p.p_filp 3 fd
        × (fd < nr_ofiles))
      ⊎ (fdget h s ≡ ok (none, record s { calls = acquire proc_table_lock ∷ s.calls }))
        × ((j : ℕ) → 3 ≤ j → j < nr_ofiles → IsTaken p.p_filp j)
unfolding fdget
fdget_lem h s p run len = elim (fdget_scan_lem p.p_filp (nr_ofiles - 3) 3 (omega arith)) [
  | inl (r, q, low, lt) ↦ inl (r, ground arith, low, lt)
  | inr (q, all) ↦ inr (ground arith, all)
]
