-- ===== src/Tools/Find/Flat.antt =====
-- `find` in a directory without directories.
use yaup.Base.{
  ℕ, suc, ◌+◌, ◌<◌, ◌≡◌, refl, Bool, ◌&&◌, not, Bool-cases, inl, inr, true, false, ◌||◌, none, some,
  List, [], ◌∷◌, ◌++◌, length, if◌then◌else◌, ◌==◌, ℤ, pos, arith, length-append,
}
use yaup.Shell.Text.{text, same_text}
use yaup.Kernel.Host.{Stat}
use yaup.Tools.Os.{Os, FilePath, Entry, gives}
use yaup.Tools.Program.{Prog, Process, done, faulted, s_isdir}
use yaup.Tools.Program.Args.{printing}
use yaup.Tools.Program.Walk.{is_dots}
use yaup.Tools.Find.{is_zero, find_loop, find, find_main}

-- No entry but "." and ".." is a directory.
abbrev pub IsFlat : List Entry → Type 0
IsFlat [] = Unit {0}
IsFlat (d ∷ ds) = (is_dots d.d_name || not d.is_dir ≡ true) × IsFlat ds

-- Whether an entry but "." and ".." has the name.
unfoldable pub has_entry : List Entry → List ℕ → Bool
has_entry [] name = false
has_entry (d ∷ ds) name = (not (is_dots d.d_name) && same_text d.d_name name) || has_entry ds name

same_text_eq : (s t : List ℕ) → same_text s t ≡ true → s ≡ t
unfolding same_text
same_text_eq [] [] e = refl
same_text_eq [] (d ∷ t) e = ground arith
same_text_eq (c ∷ s) [] e = ground arith
same_text_eq (c ∷ s) (d ∷ t) e = elim (Bool-cases (c == d)) [
  | inl same ↦ ground (arith, same_text_eq s t)
  | inr other ↦ ground arith
]

module _ (o : Os) where
  find_loop-flat :
      (search : FilePath → List ℕ → Prog (Process o) (ℤ × List ℕ)) (name : List ℕ) (ds : List Entry)
      (path : List ℕ) (s : Process o)
      → IsFlat ds
      → length path + length name < 128
      → find_loop search name ds path s
        ≡ (if has_entry ds name then done (some (pos 1), path ++ name) s else done (none, path) s)
  unfolding find_loop has_entry
  find_loop-flat search name [] path s flat short = refl
  find_loop-flat search name (d ∷ ds) path s (plain, flat) short = ground (
    arith,
    find_loop-flat search name ds path s flat short,
    same_text_eq d.d_name name,
    length-append path d.d_name,
  )

  -- `find` in a directory that opens and has no directories but "." and "..", with a name that fits
  -- into the path's buffer: it writes the path's old string and the name without a newline if an
  -- entry but "." and ".." has the name, and else that it is not found; only then it goes back to
  -- "..".
  pub find_main-flat :
      (fuel : ℕ) (path : List ℕ) (st st' : Stat) (name : List ℕ) (root : FilePath) (ds : List Entry)
      (s : Process o)
      → o.stat s.world root ≡ gives st'
      → s_isdir (st'.st_mode) ≡ true
      → o.entries s.world root ≡ gives ds
      → IsFlat ds
      → length path + length name < 128
      → find_main o (suc fuel) path st (name ∷ root ∷ []) s ≡ (
          if has_entry ds name
          then done 0 (printing o (record s { world = o.chdir s.world root }) (path ++ name))
          else done 0 (
              printing o
                (record s { world = o.chdir (o.chdir s.world root) (text "..") })
                (name ++ text " not found\n")))
  unfolding find_main find is_zero
  find_main-flat fuel path st st' name root ds s found dir opened flat short =
      let t = record s { world = o.chdir s.world root } in
      ground (arith, find_loop-flat (find fuel name) name ds path t flat short)

  -- `find` of a name that is not the name of the first entry but that of an entry in it, where the first
  -- entry is a directory without directories: the path is written over itself, a fault.
  pub find_main-nested :
      (fuel : ℕ) (path : List ℕ) (st st' : Stat) (name : List ℕ) (root : FilePath) (d : Entry)
      (ds es : List Entry) (s : Process o)
      → o.stat s.world root ≡ gives st'
      → s_isdir (st'.st_mode) ≡ true
      → o.entries s.world root ≡ gives (d ∷ ds)
      → is_dots d.d_name ≡ false
      → d.is_dir ≡ true
      → same_text d.d_name name ≡ false
      → o.entries (o.chdir s.world root) d.d_name ≡ gives es
      → IsFlat es
      → has_entry es name ≡ true
      → length path + length name < 128
      → find_main o (suc (suc fuel)) path st (name ∷ root ∷ []) s ≡ faulted
  unfolding find_main find find_loop is_zero
  find_main-nested fuel path st st' name root d ds es s found dir opened named d_dir other inner
        flat has short =
      let t = record s { world = o.chdir (o.chdir s.world root) d.d_name } in
      ground (arith, find_loop-flat (find fuel name) name es path t flat short)
