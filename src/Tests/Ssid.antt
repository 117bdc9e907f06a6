-- ===== src/Tests/Ssid.antt =====
-- SSIDs and secrets of wpa_ctrl/ssid.py.
use wpa_ctrl_py.Base.{◌≡◌, ◌↔◌, refl, [], ◌∷◌, arith, length, All, ◌≤◌, ◌*◌}
use wpa_ctrl_py.Result.{ok}
use wpa_ctrl_py.Text.{Text, Bytes, codes, hex_value}
use wpa_ctrl_py.Text.Utf8.{encode, encode_char}
use wpa_ctrl_py.Text.Utf8.Ascii.{IsByte, IsScalar, IsAscii}
use wpa_ctrl_py.Ssid.Decode.{printf_decode}
use wpa_ctrl_py.Ssid.Config.{from_config, config_value}
use wpa_ctrl_py.Ssid.Quote.{quote}
use wpa_ctrl_py.Ssid.Quote.Laws.{IsPlain, quote_exact}
use wpa_ctrl_py.Ssid.Printf.Escape.{printf_escape, printf_decode-printf_escape}
use wpa_ctrl_py.Ssid.Printf.Dialect.{Spells, plain, hex_one, trailing, printf_decode-Spells}
use wpa_ctrl_py.Ssid.Printf.Total.{printf_decode-octets}
use wpa_ctrl_py.Ssid.Config.RoundTrip.{from_config-config_value}

-- A quote, a null, a byte that is no text, and a letter.
abbrev octets : Bytes
octets = b'"' ∷ 0 ∷ 255 ∷ b'a' ∷ []

octets-IsByte : All IsByte octets
octets-IsByte = (omega arith, (omega arith, (omega arith, (omega arith, tt))))

printf_decode-printf_escape_example : printf_decode (printf_escape octets) ≡ ok octets
printf_decode-printf_escape_example = printf_decode-printf_escape octets octets-IsByte

-- `a\x9` and a backslash at the end.
abbrev short_hex : Text
short_hex = b'a' ∷ b'\\' ∷ b'x' ∷ b'9' ∷ b'\\' ∷ []

letter : encode_char b'a' ≡ ok (b'a' ∷ [])
unfolding encode_char
letter = refl

short_hex-Spells : Spells short_hex (b'a' ∷ 9 ∷ [])
unfolding hex_value
short_hex-Spells = plain (omega arith) letter (hex_one refl refl trailing) refl

printf_decode-Spells_example : printf_decode short_hex ≡ ok (b'a' ∷ 9 ∷ [])
printf_decode-Spells_example = printf_decode-Spells short_hex-Spells

abbrev euro : Text
euro = b'\\' ∷ 0x20ac ∷ []

euro-IsScalar : All IsScalar euro
euro-IsScalar = ((omega arith, refl), ((omega arith, refl), tt))

printf_decode-octets_example :
    (bytes : Bytes) × (printf_decode euro ≡ ok bytes)
    × All IsByte bytes
    × (length bytes ≤ 4 * length euro)
printf_decode-octets_example = printf_decode-octets euro euro-IsScalar

from_config-config_value_example : from_config (config_value octets) ≡ ok octets
from_config-config_value_example = from_config-config_value octets octets-IsByte

-- A quote in a passphrase is misread.
abbrev quoted_secret : Text
quoted_secret = codes "a\"b"

quoted_secret-IsAscii : All IsAscii quoted_secret
quoted_secret-IsAscii = (omega arith, (omega arith, (omega arith, tt)))

quote_exact_example :
    (from_config (quote quoted_secret) ≡ encode quoted_secret) ↔ IsPlain quoted_secret
quote_exact_example = quote_exact quoted_secret quoted_secret-IsAscii

abbrev secret : Text
secret = codes "hunter2hunter2"
