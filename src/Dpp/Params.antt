-- ===== src/Dpp/Params.antt =====
-- `format_params` and `dpp_hex` of wpa_ctrl/dpp.py.
pub mod Reading
use wpa_ctrl_py.Base.{
  ℕ, Bool, true, false, List, [], ◌∷◌, ◌++◌, Option, none, some, ◌==◌, if◌then◌else◌, is_empty,
}
use wpa_ctrl_py.Result.{Result, ok, err, value_error, ◌>>=◌}
use wpa_ctrl_py.Text.{Text, Bytes, join, rstrip, to_hex}
use wpa_ctrl_py.Text.Utf8.{encode}

-- Keyword parameters in the order of the call, with their values as text; `none` is None.
abbrev pub Params : Type 0
Params = List (Text × Option Text)

abbrev pub is_underscore : ℕ → Bool
is_underscore c = c == b'_'

unfoldable pub format_param : Text → Text → Text
format_param name value = rstrip is_underscore name ++ b'=' ∷ value

unfoldable pub format_items : Params → List Text
format_items [] = []
format_items ((name, none) ∷ params) = format_items params
format_items ((name, some value) ∷ params) = format_param name value ∷ format_items params

unfoldable pub format_params : Params → Text
format_params params = join (b' ' ∷ []) (format_items params)

-- The argument of `dpp_hex`: a `str`, or the octets of a `bytes`.
pub data Octets : Type 0 where
  text : Text → Octets
  raw : Bytes → Octets

unfoldable pub dpp_hex : Octets → Result Text
dpp_hex (text []) = err value_error
dpp_hex (text (c ∷ rest)) = encode (c ∷ rest) >>= λ bytes. ok (to_hex bytes)
dpp_hex (raw []) = err value_error
dpp_hex (raw (b ∷ rest)) = ok (to_hex (b ∷ rest))
