-- ===== src/Kernel/Namei/Paths.antt =====
-- Which paths `namei` can follow.
use yaup.Base.{
  ℕ, suc, ◌≡◌, refl, ◌≢◌, false, none, some, List, [], ◌∷◌, ◌++◌, arith, length, ok, fault,
}
use yaup.Kernel.Host.{Host, Kernel, Proc}
use yaup.Kernel.Namei.{strncmp_eq, skip_name, walk, resolve, namei}

-- No character of the list is a slash, and none is the NUL.
abbrev pub IsPlain : List ℕ → Type 0
IsPlain [] = Unit
IsPlain (c ∷ cs) = (c ≢ b'/') × (c ≢ 0) × IsPlain cs

pub skip_name-plain : (path : List ℕ) → IsPlain path → skip_name path ≡ none
unfolding skip_name
skip_name-plain [] plain = refl
skip_name-plain (c ∷ path) (ne, nz, plain) = ground (arith, skip_name-plain path plain)

-- The path "/" is the root's inode, and the empty path is that of the working directory.
pub namei_trivial :
    (h : Host) (s : Kernel h) (p : Proc) (k : ℕ)
    → s.current ≡ some p
    → p.p_cwd ≡ some k
    → (namei h (b'/' ∷ []) s ≡ ok (0, s)) × (namei h [] s ≡ ok (k, s))
unfolding namei resolve walk
namei_trivial h s p k run cwd = (ground arith, ground arith)

-- For a current process, a path of one name without a slash behind it is read past its end, whether
-- a slash is in front of it or not.
pub namei_unterminated :
    (h : Host) (s : Kernel h) (p : Proc) (c : ℕ) (name : List ℕ)
    → s.current ≡ some p
    → IsPlain (c ∷ name)
    → (namei h (b'/' ∷ c ∷ name) s ≡ fault) × (namei h (c ∷ name) s ≡ fault)
unfolding namei resolve walk
namei_unterminated h s p c name run plain = (
  ground (arith, skip_name-plain (c ∷ name) plain),
  ground (arith, skip_name-plain (c ∷ name) plain),
)

-- `dir_lookup` compares a name together with the slash behind it: for names without slashes and
-- NULs the test holds for none.
pub strncmp_eq-slash :
    (name entry rest : List ℕ)
    → IsPlain name
    → IsPlain entry
    → strncmp_eq (suc (length entry)) name (entry ++ (b'/' ∷ rest)) ≡ false
unfolding strncmp_eq
strncmp_eq-slash [] [] rest pn pe = refl
strncmp_eq-slash (x ∷ name) [] rest pn pe = ground arith
strncmp_eq-slash [] (e ∷ entry) rest pn pe = ground arith
strncmp_eq-slash (x ∷ name) (e ∷ entry) rest (a, b, pn) (c, d, pe) =
    ground (arith, strncmp_eq-slash name entry rest pn pe)
