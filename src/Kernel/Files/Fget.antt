-- ===== src/Kernel/Files/Fget.antt =====
-- `fget`: the scan of the table of open files and its outcomes.
use yaup.Base.{
  Run, fault, true, Bool-cases, Option-cases, inl, inr, ◌⊎◌, zero, ℕ, suc, ◌+◌, ◌%◌, ◌≡◌, ◌≢◌, refl,
  Bool, false, Option, none, some, List, [], ◌∷◌, arith, ◌==◌, get_elem?, set, find_index,
  find_index_found, bump, ok,
}
use yaup.Kernel.Host.{
  Host, Kernel, File, Inode, acquire, release, initlock, file_entry, open_files_lock,
}
use yaup.Kernel.Files.{Scan, found, vacant, first_empty, fget_scan, fget}

-- The scan of the table stops at an entry that has no inode, or one of that number, whether the entry
-- is in use or not.
unfoldable pub stops : List Inode → ℕ → File → Bool
stops inodes num f = elim f.f_inode [
  | none ↦ true
  | some k ↦ elim (get_elem? inodes k) [ none ↦ true | some i ↦ i.i_num == num ]
]

-- The inode that an entry names.
abbrev pub named : List Inode → File → Option Inode
named inodes f = elim f.f_inode [ none ↦ none | some k ↦ get_elem? inodes k ]

unfoldable pub unused_file : File → Bool
unused_file f = f.f_count == 0

abbrev shift : ℕ → Option ℕ → Option ℕ
shift n none = none
shift n (some i) = some (n + i)

abbrev or_else : Option ℕ → Option ℕ → Option ℕ
or_else none b = b
or_else (some a) b = some a

bump-zero : (o : Option ℕ) → bump o ≢ some 0
bump-zero none = ground arith
bump-zero (some i) = ground arith

shift-bump : (n : ℕ) (o : Option ℕ) → shift n (bump o) ≡ shift (n + 1) o
shift-bump n none = refl
shift-bump n (some i) = ground arith

-- What the scan ends with at an entry that names the inode.
abbrev stopped : Option Inode → ℕ → Run Scan
stopped none n = fault
stopped (some i) n = ok (found n)

-- The three kinds of entries: without an inode, of that number, of another.
entry_cases :
    (inodes : List Inode) (num : ℕ) (f : File)
    → (named inodes f ≡ none)
      ⊎ ((k : ℕ) × (i : Inode) × (f.f_inode ≡ some k)
          × (get_elem? inodes k ≡ some i)
          × ((i.i_num == num) ≡ true))
      ⊎ ((k : ℕ) × (i : Inode) × (f.f_inode ≡ some k)
          × (get_elem? inodes k ≡ some i)
          × ((i.i_num == num) ≡ false))
entry_cases inodes num f = elim (Option-cases f.f_inode) [
  | inl e ↦ inl (ground arith)
  | inr (k, e) ↦ elim (Option-cases (get_elem? inodes k)) [
    | inl e' ↦ inl (ground arith)
    | inr (i, e') ↦ elim (Bool-cases (i.i_num == num)) [
      | inl same ↦ inr (inl (k, i, e, e', same))
      | inr other ↦ inr (inr (k, i, e, e', other))
    ]
  ]
]

-- An entry without an inode ends the scan with a fault.
scan-fault :
    (inodes : List Inode) (num : ℕ) (f : File) (fs : List File) (n : ℕ) (e : Option ℕ)
    → named inodes f ≡ none
    → (fget_scan inodes num (f ∷ fs) n e ≡ fault) × (stops inodes num f ≡ true)
unfolding fget_scan stops
scan-fault inodes num f fs n e null = elim (Option-cases f.f_inode) [
  | inl e' ↦ (ground arith, ground arith)
  | inr (k, e') ↦ (ground arith, ground arith)
]

scan-vacant :
    (inodes : List Inode) (num : ℕ) (fs : List File) (n : ℕ) (e : Option ℕ)
    → find_index (stops inodes num) fs ≡ none
    → fget_scan inodes num fs n e ≡ ok (vacant (or_else e (shift n (find_index unused_file fs))))
unfolding fget_scan find_index first_empty unused_file stops
scan-vacant inodes num [] n e miss = ground arith
scan-vacant inodes num (f ∷ fs) n e miss = elim (entry_cases inodes num f) [
  | inl null ↦ absurd (ground (arith, scan-fault inodes num f fs n e null))
  | inr (inl (k, i, ek, ei, same)) ↦ absurd (ground arith)
  | inr (inr (k, i, ek, ei, other)) ↦
      let rest : find_index (stops inodes num) fs ≡ none = ground arith in
      ground (
        arith,
        scan-vacant inodes num fs (n + 1) (first_empty e f n) rest,
        shift-bump n (find_index unused_file fs),
      )
]

scan-stopped :
    (inodes : List Inode) (num : ℕ) (fs : List File) (n m : ℕ) (f : File) (e : Option ℕ)
    → find_index (stops inodes num) fs ≡ some m
    → get_elem? fs m ≡ some f
    → fget_scan inodes num fs n e ≡ stopped (named inodes f) (n + m)
unfolding fget_scan find_index stops
scan-stopped inodes num [] n m f e hit g = ground arith
scan-stopped inodes num (h ∷ fs) n zero f e hit g = elim (entry_cases inodes num h) [
  | inl null ↦ ground (arith, scan-fault inodes num h fs n e null)
  | inr (inl (k, i, ek, ei, same)) ↦ ground arith
  | inr (inr (k, i, ek, ei, other)) ↦
      absurd (bump-zero (find_index (stops inodes num) fs) (ground arith))
]
scan-stopped inodes num (h ∷ fs) n (suc m) f e hit g = elim (entry_cases inodes num h) [
  | inl null ↦ absurd (ground (arith, scan-fault inodes num h fs n e null))
  | inr (inl (k, i, ek, ei, same)) ↦ absurd (ground arith)
  | inr (inr (k, i, ek, ei, other)) ↦
      let rest : find_index (stops inodes num) fs ≡ some m = ground arith in
      let place : (n + 1) + m ≡ n + suc m = omega arith in
      ground (arith, scan-stopped inodes num fs (n + 1) m f (first_empty e h n) rest g, place)
]

module _ (h : Host) (s : Kernel h) (k flags : ℕ) (i : Inode) where
  -- What `fget` gives, in four cases.
  abbrev pub FgetOutcome : Type 0
  FgetOutcome =
      ((m : ℕ) × (f : File) × (j : Inode) × (find_index (stops s.icache i.i_num) s.open_files
          ≡ some m)
        × (get_elem? s.open_files m ≡ some f)
        × (named s.icache f ≡ some j)
        × (fget h k flags s
            ≡ ok (
              some m,
              record s {
                open_files = set s.open_files m (record f { f_count = (f.f_count + 1) % 256 });
                calls = release open_files_lock ∷ acquire open_files_lock ∷ s.calls;
              },
            )))
      ⊎ ((m : ℕ) × (f : File) × (find_index (stops s.icache i.i_num) s.open_files ≡ some m)
          × (get_elem? s.open_files m ≡ some f)
          × (named s.icache f ≡ none)
          × (fget h k flags s ≡ fault))
      ⊎ ((m : ℕ) × (find_index (stops s.icache i.i_num) s.open_files ≡ none)
          × (find_index unused_file s.open_files ≡ some m)
          × (fget h k flags s
              ≡ ok (
                some m,
                record s {
                  open_files = set s.open_files m (record {
                    f_mode = i.core.i_mode;
                    f_flag = flags % 256;
                    f_count = 1;
                    f_off = 0;
                    f_inode = some k;
                  });
                  calls =
                      release open_files_lock
                      ∷ initlock (file_entry m)
                      ∷ acquire open_files_lock
                      ∷ s.calls;
                },
              )))
      ⊎ ((find_index (stops s.icache i.i_num) s.open_files ≡ none)
          × (find_index unused_file s.open_files ≡ none)
          × (fget h k flags s
              ≡ ok (
                none,
                record s { calls = release open_files_lock ∷ acquire open_files_lock ∷ s.calls },
              )))

  -- `fget` of a cached inode has four outcomes. The scan stops at the first entry that has no inode
  -- or an inode of that number. If the entry has an inode, in use or not, it gets one more user, modulo
  -- 256, and is otherwise left as it is; if it has none, as an entry that was never opened, `fget`
  -- faults. If the scan stops nowhere, the first unused entry is set up at offset 0 with the inode's
  -- mode; if there is none either, no file is given.
  pub fget_lem : get_elem? s.icache k ≡ some i → FgetOutcome
  unfolding fget unused_file
  fget_lem inode = elim (Option-cases (find_index (stops s.icache i.i_num) s.open_files)) [
    | inr (m, hit) ↦
        let (f, g, z) = find_index_found (stops s.icache i.i_num) s.open_files m hit in
        let scan = scan-stopped s.icache i.i_num s.open_files 0 m f none hit g in
        elim (Option-cases (named s.icache f)) [
          | inr (j, e) ↦ inl (m, f, j, hit, g, e, ground (arith, scan))
          | inl e ↦ inr (inl (m, f, hit, g, e, ground (arith, scan)))
        ]
    | inl miss ↦
        let scan = scan-vacant s.icache i.i_num s.open_files 0 none miss in
        elim (Option-cases (find_index unused_file s.open_files)) [
          | inr (m, e) ↦
              let (f, g, z) = find_index_found unused_file s.open_files m e in
              let one : f.f_count ≡ 0 = ground arith in
              inr (inr (inl (m, miss, e, ground (arith, scan))))
          | inl e ↦ inr (inr (inr (miss, e, ground (arith, scan))))
        ]
  ]
