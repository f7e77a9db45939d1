-- ===== src/Tools/Wc/Refusal.antt =====
-- `wc` of several files.
use yaup.Base.{◌^◌, ◌<◌, ◌==◌, length, count_if, ℕ, List, [], ◌∷◌, ◌++◌}
use yaup.Shell.Text.{text, decimal}
use yaup.Tools.Os.{Os, FilePath}
use yaup.Tools.Wc.{isblank}
use yaup.Tools.Wc.Counts.{is_visible}

-- The name and the numbers of visible characters, of blanks and of newlines, in decimal.
unfoldable pub wc_entry : FilePath → List ℕ → List ℕ
wc_entry name fp =
    (name ++ text ": ")
    ++ (decimal (count_if is_visible fp)
        ++ (32
            ∷ (decimal (count_if isblank fp)
                ++ (32 ∷ (decimal (count_if (λ c. c == 10) fp) ++ (10 ∷ []))))))

abbrev pub IsShort : List ℕ → Type 0
IsShort fp = length fp < 2 ^ 31
