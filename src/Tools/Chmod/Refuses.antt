-- ===== src/Tools/Chmod/Refuses.antt =====
-- `parse_mode` accepts no mode.
use yaup.Base.{ℕ, zero, suc, ◌≡◌, refl, List, [], ◌∷◌, ◌++◌, length, get_or, ok, arith}
use yaup.Tools.Chmod.{no_mode, parse_loop, parse_mode}

get_or-end : (arg : List ℕ) → get_or (arg ++ (0 ∷ [])) (length arg) 0 ≡ 0
get_or-end [] = refl
get_or-end (c ∷ arg) = get_or-end arg

parse_loop-nul :
    (arg : List ℕ) (l i mode : ℕ)
    → get_or (arg ++ (0 ∷ [])) l 0 ≡ 0
    → parse_loop arg l i mode ≡ ok no_mode
unfolding parse_loop
parse_loop-nul arg zero i mode e = ground arith
parse_loop-nul arg (suc l) i mode e = ground arith

-- Whatever the argument, `parse_mode` gives -1: the first character it tests is the NUL.
pub parse_mode-no_mode : (arg : List ℕ) → parse_mode arg ≡ ok no_mode
unfolding parse_mode
parse_mode-no_mode arg = parse_loop-nul arg (length arg) 0 0 (get_or-end arg)
