-- ===== src/Text/Lines.antt =====
-- Lines put together with "\n" behind each, and taken apart by `str.splitlines`.
use wpa_ctrl_py.Base.{ℕ, ◌≡◌, refl, ap, ◌∙◌, false, List, [], ◌∷◌, ◌++◌, arith, ◌==◌, All}
use wpa_ctrl_py.Text.{Text, is_line_end, lines_from, splitlines}
use wpa_ctrl_py.Text.Laws.{Keeps}

abbrev pub unlines : List Text → Text
unlines [] = []
unlines (line ∷ lines) = line ++ b'\n' ∷ unlines lines

-- A line with no end of a line in it.
abbrev pub IsLine : Text → Type 0
IsLine = Keeps is_line_end

not_return : (c : ℕ) → is_line_end c ≡ false → (c == b'\r') ≡ false
unfolding is_line_end
not_return c h = ground arith

lines_from-line :
    (line text : Text)
    → IsLine line
    → lines_from false (line ++ b'\n' ∷ text) ≡ line ∷ lines_from false text
unfolding lines_from
lines_from-line [] text h = unfold is_line_end in refl
lines_from-line (c ∷ line) text h = rw (h.0, not_return c h.0, lines_from-line line text h.1) refl

pub splitlines-unlines : (lines : List Text) → All IsLine lines → splitlines (unlines lines) ≡ lines
unfolding splitlines
splitlines-unlines [] h = unfold lines_from in refl
splitlines-unlines (line ∷ lines) h =
    lines_from-line line (unlines lines) h.0 ∙ ap (◌∷◌ line) (splitlines-unlines lines h.1)
