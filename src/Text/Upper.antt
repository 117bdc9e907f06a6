-- ===== src/Text/Upper.antt =====
-- `str.upper()`: the full case mapping of Unicode, character by character.
mod Ranges
mod Special
pub mod Ascii
use wpa_ctrl_py.Base.{ℕ, ◌+◌, ◌-◌, ◌*◌, ◌%◌, ◌&&◌, List, [], ◌∷◌, ◌++◌, leb, ◌==◌, if◌then◌else◌}
use wpa_ctrl_py.Text.{Text}
use wpa_ctrl_py.Text.Upper.Ranges.{upper_runs}
use wpa_ctrl_py.Text.Upper.Special.{upper_special}

upper_by_runs : List (ℕ × ℕ × ℕ × ℕ) → ℕ → ℕ
upper_by_runs [] c = c
upper_by_runs ((first, last, step, form) ∷ runs) c =
    let rest = upper_by_runs runs c in
    if leb first c && leb c last && (c - first) % step == 0 then form + (c - first) else rest

upper_by_table : List (ℕ × List ℕ) → ℕ → Text
unfolding upper_by_runs
upper_by_table [] c = upper_by_runs upper_runs c ∷ []
upper_by_table ((special, form) ∷ more) c =
    let rest = upper_by_table more c in if c == special then form else rest

-- The upper-case form of one character.
unfoldable pub upper_char : ℕ → Text
unfolding upper_by_table
upper_char c = upper_by_table upper_special c

-- `text.upper()`.
unfoldable pub upper : Text → Text
upper [] = []
upper (c ∷ text) = upper_char c ++ upper text
