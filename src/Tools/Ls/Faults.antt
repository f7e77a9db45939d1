-- ===== src/Tools/Ls/Faults.antt =====
-- `ls` of a directory that opens does not come back.
use yaup.Base.{
  ℕ, ◌≡◌, ◌≢◌, refl, Bool, true, false, Bool-cases, inl, inr, none, some, List, [], ◌∷◌, ◌++◌,
  length, map, leb, arith,
}
use yaup.Shell.Text.{same_text}
use yaup.Kernel.Host.{Stat}
use yaup.Tools.Os.{Os, FilePath, Entry, gives}
use yaup.Tools.Program.{Process, faulted, s_isdir}
use yaup.Tools.Ls.{alpha_sort, list_until_empty, list_all, list_dirs, ls_main}

-- Every entry of a directory has a name.
abbrev pub AreNamed : List Entry → Type 0
AreNamed [] = Unit {0}
AreNamed (d ∷ ds) = (d.d_name ≢ []) × AreNamed ds

same_text-nil : (s : List ℕ) → s ≢ [] → same_text s [] ≡ false
unfolding same_text
same_text-nil [] ne = absurd (ne refl)
same_text-nil (c ∷ s) ne = refl

module _ (o : Os) where
  list_until_empty-faulted :
      (moved : Bool) (ds : List Entry) (s : Process o)
      → AreNamed ds
      → list_until_empty {o = o} moved (map some ds ++ (none ∷ [])) s ≡ faulted
  unfolding list_until_empty
  list_until_empty-faulted moved [] s named = refl
  list_until_empty-faulted moved (d ∷ ds) s (ne, named) =
      let t = record s { stdout = s.stdout ++ (d.d_name ++ (10 ∷ [])) } in
      ground (arith, same_text-nil d.d_name ne, list_until_empty-faulted true ds t named)

  list_all-faulted :
      (ds : List Entry) (s : Process o) → list_all {o = o} (map some ds ++ (none ∷ [])) s ≡ faulted
  unfolding list_all
  list_all-faulted [] s = refl
  list_all-faulted (d ∷ ds) s =
      list_all-faulted ds (record s { stdout = s.stdout ++ (d.d_name ++ (10 ∷ [])) })

  -- `ls` of a directory that opens, and whose entries have names, reads the null pointer behind the
  -- entries or writes past the array: a fault, whether it is the only argument or the first of
  -- several.
  pub ls_main-faulted :
      (st st' : Stat) (a : FilePath) (args : List FilePath) (ds : List Entry) (s : Process o)
      → o.stat s.world a ≡ gives st'
      → s_isdir (st'.st_mode) ≡ true
      → o.entries s.world a ≡ gives ds
      → AreNamed ds
      → ls_main o st (a ∷ args) s ≡ faulted
  unfolding ls_main list_dirs alpha_sort
  ls_main-faulted st st' a [] ds s found dir opened named =
      elim (Bool-cases (leb 512 (length ds))) [
        | inl many ↦ ground arith
        | inr fits ↦ ground (arith, list_until_empty-faulted false ds s named)
      ]
  ls_main-faulted st st' a (b ∷ args) ds s found dir opened named =
      elim (Bool-cases (leb 512 (length ds))) [
        | inl many ↦ ground arith
        | inr fits ↦
            let t = record s { stdout = s.stdout ++ (a ++ (58 ∷ 10 ∷ [])) } in
            ground (arith, list_all-faulted ds t)
      ]
