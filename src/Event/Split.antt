-- ===== src/Event/Split.antt =====
-- `_split_params` of wpa_ctrl/events.py.
pub mod Laws
use wpa_ctrl_py.Base.{
  ℕ, Bool, true, false, not, ◌&&◌, List, [], ◌∷◌, ◌++◌, ◌==◌, if◌then◌else◌, is_empty,
}
use wpa_ctrl_py.Text.{Text}

-- The variables of the loop.
pub record Scan : Type 0 where
  pub tokens : List Text
  pub current : Text
  pub quoted : Bool
  pub escaped : Bool

abbrev pub start : Scan
start = record { tokens = []; current = []; quoted = false; escaped = false }

abbrev pub put : Scan → ℕ → Scan
put s char = record s { current = s.current ++ char ∷ [] }

-- `if current: tokens.append("".join(current)); current = []`.
abbrev pub flush : Scan → Scan
flush s =
    if is_empty s.current then s else record s { tokens = s.tokens ++ s.current ∷ []; current = [] }

-- One round of the loop.
unfoldable pub scan_char : Scan → ℕ → Scan
scan_char s char =
    if s.escaped
    then record (put s char) { escaped = false }
    else if s.quoted && char == b'\\'
    then record (put s char) { escaped = true }
    else if char == b'"'
    then record (put s char) { quoted = not s.quoted }
    else if char == b' ' && not s.quoted
    then flush s
    else put s char

unfoldable pub scan_text : Scan → Text → Scan
scan_text s [] = s
scan_text s (char ∷ text) = scan_text (scan_char s char) text

unfoldable pub split_params : Text → List Text
split_params text = (flush (scan_text start text)).tokens
