-- ===== src/Dpp/Params/Reading.antt =====
-- `parse_params` (wpa_ctrl/events.py) reads what `format_params` (wpa_ctrl/dpp.py) writes.
use wpa_ctrl_py.Base.{◌≡◌, refl, ap, ◌∙◌, List, [], ◌∷◌, none, some, map, All}
use wpa_ctrl_py.Text.{rstrip, join}
use wpa_ctrl_py.Event.Params.{parse_params}
use wpa_ctrl_py.Event.Params.Fields.{Field, bare, token, IsField, assign, parse_params-payload}
use wpa_ctrl_py.Dpp.Params.{Params, is_underscore, format_param, format_items, format_params}

-- The parameters that are given, under the names that go out.
abbrev pub given : Params → List Field
given [] = []
given ((name, none) ∷ params) = given params
given ((name, some value) ∷ params) = bare (rstrip is_underscore name) value ∷ given params

-- Names that are keys once stripped, and values with neither spaces nor quotes.
abbrev pub IsWritable : Params → Type 0
IsWritable params = All IsField (given params)

format_items-given : (params : Params) → format_items params ≡ map token (given params)
unfolding format_items format_param
format_items-given [] = refl
format_items-given ((name, none) ∷ params) = format_items-given params
format_items-given ((name, some value) ∷ params) =
    ap (◌∷◌ (format_param name value)) (format_items-given params)

-- Parameters whose names and values hold neither spaces nor quotes, and whose names hold no equals
-- sign, are read back as the dict of the values that are not None, each under its name with the
-- trailing underscores stripped, which leave something of it.
pub parse_params-format_params :
    (params : Params)
    → IsWritable params
    → parse_params (format_params params) ≡ assign [] (given params)
unfolding format_params
parse_params-format_params params h =
    ap (λ t. parse_params (join (b' ' ∷ []) t)) (format_items-given params)
    ∙ parse_params-payload (given params) h
