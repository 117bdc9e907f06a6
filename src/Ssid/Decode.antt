-- ===== src/Ssid/Decode.antt =====
-- `printf_decode` of wpa_ctrl/ssid.py.
use wpa_ctrl_py.Base.{
  ℕ, zero, suc, ◌+◌, ◌*◌, ◌-◌, ◌%◌, [], ◌∷◌, ◌++◌, Option, none, some, ◌==◌, if◌then◌else◌,
  is_empty, length,
}
use wpa_ctrl_py.Result.{Result, ok, err, endless, ◌>>=◌}
use wpa_ctrl_py.Text.{Text, Bytes, between, is_hex_digit, hex_value}
use wpa_ctrl_py.Text.Utf8.{encode_char}

-- `_PRINTF_ESCAPES`.
abbrev pub printf_escapes : ℕ → Option ℕ
printf_escapes c =
    if c == b'\\'
    then some b'\\'
    else if c == b'"'
    then some b'"'
    else if c == b'n'
    then some b'\n'
    else if c == b'r'
    then some b'\r'
    else if c == b't'
    then some b'\t'
    else if c == b'e'
    then some 0x1b
    else none

-- What a round of the loop leaves: the octets it appends, and the text still to read.
pub record Round : Type 0 where
  pub octets : Bytes
  pub unread : Text

abbrev pub round : Bytes → Text → Round
round octets unread = record { octets = octets; unread = unread }

-- `while ... len(digits) < 2 and text[index] in _HEX_DIGITS`: the digits, and what follows them.
unfoldable pub hex_digits : ℕ → Text → Round
hex_digits zero text = round [] text
hex_digits (suc more) [] = round [] []
hex_digits (suc more) (c ∷ text) =
    let rest = hex_digits more text in
    if is_hex_digit c then record rest { octets = c ∷ rest.octets } else round [] (c ∷ text)

-- `int(digits, 16)` of at most two digits.
abbrev pub hex_number : Text → ℕ → ℕ
hex_number [] value = value
hex_number (d ∷ digits) value = hex_number digits (value * 16 + hex_value d)

-- `while ... digits < 3 and "0" <= text[index] <= "7"`, then `value & 0xFF`.
unfoldable pub octal_digits : ℕ → ℕ → Text → Round
octal_digits zero value text = round (value % 256 ∷ []) text
octal_digits (suc more) value [] = round (value % 256 ∷ []) []
octal_digits (suc more) value (c ∷ text) =
    let rest = octal_digits more (value * 8 + (c - b'0')) text in
    if between b'0' b'7' c then rest else round (value % 256 ∷ []) (c ∷ text)

hex_escape : Round → Round
hex_escape digits =
    if is_empty digits.octets
    then digits
    else record digits { octets = hex_number digits.octets 0 ∷ [] }

-- Behind a backslash.
unfoldable pub escape_round : Text → Result Round
unfolding hex_escape
escape_round [] = ok (round [] [])
escape_round (escape ∷ text) = elim (printf_escapes escape) [
  | some octet ↦ ok (round (octet ∷ []) text)
  | none ↦
      if escape == b'x'
      then ok (hex_escape (hex_digits 2 text))
      else if between b'0' b'7' escape
      then ok (octal_digits 3 0 (escape ∷ text))
      else (encode_char escape >>= λ octets. ok (round octets text))
]

-- One round of the loop, from the character `char`.
unfoldable pub decode_round : ℕ → Text → Result Round
decode_round char text =
    if char == b'\\'
    then escape_round text
    else (encode_char char >>= λ octets. ok (round octets text))

-- The loop. Every round reads a character, so the length of the text is fuel enough; a round that
-- read none would run out of it, and the loop would be endless.
unfoldable pub decode_loop : ℕ → Bytes → Text → Result Bytes
decode_loop zero result [] = ok result
decode_loop zero result (char ∷ text) = err endless
decode_loop (suc fuel) result [] = ok result
decode_loop (suc fuel) result (char ∷ text) =
    decode_round char text >>= λ r. decode_loop fuel (result ++ r.octets) r.unread

unfoldable pub printf_decode : Text → Result Bytes
unfolding decode_loop
printf_decode text = decode_loop (length text) [] text
