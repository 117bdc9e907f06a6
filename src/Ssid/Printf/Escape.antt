-- ===== src/Ssid/Printf/Escape.antt =====
-- The escaping that the daemon applies on the way out, as the comment on `printf_decode` describes
-- it: printable ASCII is kept but for the backslash and the quote, the named escapes are used, and
-- every other octet is `\xNN`. It is a spelling of the dialect, so the decoder undoes it.
use wpa_ctrl_py.Base.{
  ℕ, ◌+◌, ◌*◌, ◌/◌, ◌%◌, ◌<◌, ◌≡◌, ◌≢◌, refl, inl, inr, true, [], ◌∷◌, Option, none, some, arith,
  ◌==◌, if◌then◌else◌, All, Bool-cases, Option-cases,
}
use mathlib.Core.Path.{subst}
use wpa_ctrl_py.Result.{ok}
use wpa_ctrl_py.Text.{Text, Bytes, between, is_hex_digit, hex_value, hex_digit}
use wpa_ctrl_py.Text.Utf8.Ascii.{IsByte, encode_char_ascii}
use wpa_ctrl_py.Ssid.Decode.{printf_escapes, printf_decode}
use wpa_ctrl_py.Ssid.Printf.Dialect.{Spells, finished, plain, named, hex_two, printf_decode-Spells}

-- The name behind the backslash, for the octets that have one.
abbrev pub escape_name : ℕ → Option ℕ
escape_name b =
    if b == b'\\'
    then some b'\\'
    else if b == b'"'
    then some b'"'
    else if b == b'\n'
    then some b'n'
    else if b == b'\r'
    then some b'r'
    else if b == b'\t'
    then some b't'
    else if b == 0x1b
    then some b'e'
    else none

unfoldable pub escape_octet : ℕ → Text → Text
escape_octet b text = elim (escape_name b) [
  | some name ↦ b'\\' ∷ name ∷ text
  | none ↦
      if between 32 126 b
      then b ∷ text
      else b'\\' ∷ b'x' ∷ hex_digit (b / 16) ∷ hex_digit (b % 16) ∷ text
]

abbrev pub printf_escape : Bytes → Text
printf_escape [] = []
printf_escape (b ∷ octets) = escape_octet b (printf_escape octets)

pub hex_digit-is_hex_digit : (n : ℕ) → n < 16 → is_hex_digit (hex_digit n) ≡ true
unfolding hex_digit
hex_digit-is_hex_digit n h = ground arith

pub hex_value-hex_digit : (n : ℕ) → n < 16 → hex_value (hex_digit n) ≡ n
unfolding hex_digit hex_value
hex_value-hex_digit n h = ground arith

pub hex_pair :
    (b : ℕ) → IsByte b → hex_value (hex_digit (b / 16)) * 16 + hex_value (hex_digit (b % 16)) ≡ b
hex_pair b h =
    omega (
      arith,
      hex_value-hex_digit (b / 16) (omega arith),
      hex_value-hex_digit (b % 16) (omega arith),
    )

Spells-hex :
    (b : ℕ) {text : Text} {octets : Bytes}
    → IsByte b
    → Spells text octets
    → Spells (b'\\' ∷ b'x' ∷ hex_digit (b / 16) ∷ hex_digit (b % 16) ∷ text) (b ∷ octets)
Spells-hex b {text} {octets} h s =
    subst (λ v. Spells (b'\\' ∷ b'x' ∷ hex_digit (b / 16) ∷ hex_digit (b % 16) ∷ text) (v ∷ octets))
      (hex_pair b h)
      (hex_two (hex_digit-is_hex_digit (b / 16) (omega arith))
        (hex_digit-is_hex_digit (b % 16) (omega arith)) s)

escape_name-printf_escapes : (b name : ℕ) → escape_name b ≡ some name → printf_escapes name ≡ some b
escape_name-printf_escapes b name h = ground arith

escape_name-backslash : (b : ℕ) → escape_name b ≡ none → b ≢ b'\\'
escape_name-backslash b h = ground arith

Spells-escape_octet :
    (b : ℕ) {text : Text} {octets : Bytes}
    → IsByte b
    → Spells text octets
    → Spells (escape_octet b text) (b ∷ octets)
unfolding escape_octet
Spells-escape_octet b h s = elim (Option-cases (escape_name b)) [
  | inl e ↦ elim (Bool-cases (between 32 126 b)) [
    | inl p ↦
        rw (e, escape_octet, p)
          (plain (escape_name-backslash b e) (encode_char_ascii b (ground arith)) s refl)
    | inr p ↦ rw (e, escape_octet, p) (Spells-hex b h s)
  ]
  | inr (name, e) ↦ rw (e, escape_octet) (named (escape_name-printf_escapes b name e) s)
]

Spells-printf_escape : (octets : Bytes) → All IsByte octets → Spells (printf_escape octets) octets
Spells-printf_escape [] h = finished
Spells-printf_escape (b ∷ octets) h = Spells-escape_octet b h.0 (Spells-printf_escape octets h.1)

-- Decoding undoes the escaping, for every octet string.
pub printf_decode-printf_escape :
    (octets : Bytes) → All IsByte octets → printf_decode (printf_escape octets) ≡ ok octets
printf_decode-printf_escape octets h = printf_decode-Spells (Spells-printf_escape octets h)
