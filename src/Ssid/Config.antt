-- ===== src/Ssid/Config.antt =====
-- `Ssid.from_printf`, `Ssid.from_config`, `Ssid.text` and `Ssid.config_value` of wpa_ctrl/ssid.py.
-- A value of the class is its octets.
pub mod Forms
pub mod RoundTrip
use wpa_ctrl_py.Base.{
  ℕ, zero, suc, ◌+◌, ◌%◌, Bool, true, false, not, ◌&&◌, ◌||◌, List, [], ◌∷◌, ◌++◌, Option, ◌==◌,
  if◌then◌else◌, is_empty, length, all, drop,
}
use wpa_ctrl_py.Result.{Result, ok, err, value_error, ◌>>=◌}
use wpa_ctrl_py.Text.{
  Text, Bytes, Partition, between, starts_with, rpartition, is_hex_digit, from_hex, to_hex, codes,
}
use wpa_ctrl_py.Text.Utf8.{encode, decode}
use wpa_ctrl_py.Ssid.Decode.{printf_decode}

abbrev pub Ssid : Type 0
Ssid = Bytes

abbrev pub from_printf : Text → Result Ssid
from_printf = printf_decode

-- The quoted forms: the body stands before the last quote, and nothing behind it.
unfoldable pub from_quoted : (Text → Result Bytes) → Partition → Result Ssid
from_quoted decode_body p =
    if not p.found || not (is_empty p.after) then err value_error else decode_body p.before

unfoldable pub from_bare : Text → Result Ssid
from_bare value =
    if not (length value % 2 == 0) || not (all is_hex_digit value)
    then err value_error
    else from_hex value

unfoldable pub from_config : Text → Result Ssid
from_config value =
    if starts_with (codes "\"") value
    then from_quoted encode (rpartition b'"' (drop 1 value))
    else if starts_with (codes "P\"") value
    then from_quoted printf_decode (rpartition b'"' (drop 2 value))
    else from_bare value

-- `Ssid.text`.
abbrev pub text : Ssid → Option Text
text = decode

-- The ASCII text of octets that are all printable is the octets themselves.
unfoldable pub config_value : Ssid → Text
config_value ssid = if all (between 32 126) ssid then b'"' ∷ (ssid ++ codes "\"") else to_hex ssid
