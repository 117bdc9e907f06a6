-- ===== src/Event/Params.antt =====
-- `parse_params` of wpa_ctrl/events.py.
pub mod Fields
use wpa_ctrl_py.Base.{
  ℕ, zero, suc, Bool, true, false, not, ◌&&◌, ◌||◌, List, [], ◌∷◌, ◌++◌, ◌==◌, if◌then◌else◌,
  is_empty,
}
use wpa_ctrl_py.Text.{Text, Partition, partition}
use wpa_ctrl_py.Dict
use wpa_ctrl_py.Dict.{Dict}
use wpa_ctrl_py.Event.{Event}
use wpa_ctrl_py.Event.Split.{split_params}

-- `value[-1] == '"'`, and `value[:-1]`, of a value that is not empty.
abbrev pub ends_quoted : Text → Bool
ends_quoted [] = false
ends_quoted (c ∷ []) = c == b'"'
ends_quoted (c ∷ d ∷ text) = ends_quoted (d ∷ text)

abbrev pub but_last : Text → Text
but_last [] = []
but_last (c ∷ []) = []
but_last (c ∷ d ∷ text) = c ∷ but_last (d ∷ text)

-- A value of at least two characters that is quoted loses its quotes.
unfoldable pub unquote : Text → Text
unquote (c ∷ d ∷ text) =
    if c == b'"' && ends_quoted (d ∷ text) then but_last (d ∷ text) else c ∷ d ∷ text
unquote value = value

-- One token.
unfoldable pub add_token : Dict → Partition → Dict
add_token variables p =
    if not p.found || is_empty p.before
    then variables
    else Dict.set p.before (unquote p.after) variables

unfoldable pub add_tokens : Dict → List Text → Dict
add_tokens variables [] = variables
add_tokens variables (token ∷ tokens) =
    add_tokens (add_token variables (partition b'=' token)) tokens

unfoldable pub parse_params : Text → Dict
parse_params params = add_tokens [] (split_params params)

-- `Event.variables`.
abbrev pub variables : Event → Dict
variables e = parse_params e.params
