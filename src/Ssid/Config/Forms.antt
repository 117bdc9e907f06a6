-- ===== src/Ssid/Config/Forms.antt =====
-- What `Ssid.from_config` (wpa_ctrl/ssid.py) makes of each of its three forms.
use wpa_ctrl_py.Base.{
  ℕ, ◌+◌, ◌*◌, ◌%◌, ◌≡◌, refl, inl, inr, true, false, ◌&&◌, [], ◌∷◌, ◌++◌, arith, ◌==◌,
  if◌then◌else◌, length, all, Bool-cases, and_true, ==_iff, ◌/◌,
}
use wpa_ctrl_py.Result.{ok, err, value_error}
use wpa_ctrl_py.Text.{
  Text, Bytes, codes, starts_with, rpartition, is_ascii_space, is_hex_digit, hex_value, from_hex,
}
use wpa_ctrl_py.Text.Utf8.{encode}
use wpa_ctrl_py.Ssid.Decode.{printf_decode}
use wpa_ctrl_py.Ssid.Config.{from_quoted, from_bare, from_config}

-- The last character is the separator that `rpartition` finds.
pub rpartition-concat :
    (sep : ℕ) (body : Text)
    → rpartition sep (body ++ sep ∷ []) ≡ record { before = body; found = true; after = [] }
unfolding rpartition
rpartition-concat sep [] = ground arith
rpartition-concat sep (c ∷ body) = rw (rpartition-concat sep body)

-- The quoted form is the literal bytes between the first quote and the last, whatever stands
-- between them: quotes and backslashes are not special.
pub from_config_literal : (body : Text) → from_config (b'"' ∷ (body ++ b'"' ∷ [])) ≡ encode body
unfolding from_config from_quoted starts_with
from_config_literal body = rw (rpartition-concat b'"' body)

-- The P form is the same with the printf escapes.
pub from_config_printf :
    (body : Text) → from_config (b'P' ∷ b'"' ∷ (body ++ b'"' ∷ [])) ≡ printf_decode body
unfolding from_config from_quoted starts_with
from_config_printf body = rw (rpartition-concat b'"' body)

-- Neither quoted form.
abbrev pub IsBare : Text → Type 0
IsBare value = (starts_with (codes "\"") value ≡ false) × (starts_with (codes "P\"") value ≡ false)

pub from_config_bare : (value : Text) → IsBare value → from_config value ≡ from_bare value
unfolding from_config
from_config_bare value h = rw (h.0, h.1)

-- The value of a text as pairs of hexadecimal digits.
abbrev pub hex_pairs : Text → Bytes
hex_pairs (c ∷ d ∷ text) = (hex_value c * 16 + hex_value d) ∷ hex_pairs text
hex_pairs _ = []

hex_no_space : (c : ℕ) → is_hex_digit c ≡ true → is_ascii_space c ≡ false
hex_no_space c h = ground arith

from_hex-hex_pairs :
    (text : Text)
    → length text % 2 ≡ 0
    → all is_hex_digit text ≡ true
    → from_hex text ≡ ok (hex_pairs text)
unfolding from_hex
from_hex-hex_pairs [] even h = refl
from_hex-hex_pairs (c ∷ []) even h = absurd (omega arith)
from_hex-hex_pairs (c ∷ d ∷ text) even h =
    let (hc, more) = and_true (is_hex_digit c) _ h in
    let (hd, rest) = and_true (is_hex_digit d) _ more in
    rw (hex_no_space c hc, hc, hd, from_hex-hex_pairs text (omega arith) rest)

-- The bare form is read when it is hexadecimal digits, evenly many, and refused otherwise.
pub from_bare_lem :
    (value : Text)
    → from_bare value ≡ (
        if length value % 2 == 0 && all is_hex_digit value
        then ok (hex_pairs value)
        else err value_error)
unfolding from_bare
from_bare_lem value = elim (Bool-cases (all is_hex_digit value)) [
  | inl h ↦ elim (Bool-cases (length value % 2 == 0)) [
    | inl even ↦ rw (even, h, from_hex-hex_pairs value ((==_iff _ 0).0 even) h)
    | inr odd ↦ rw odd
  ]
  | inr h ↦ rw h (ground arith)
]

pub length-hex_pairs : (text : Text) → length (hex_pairs text) ≡ length text / 2
length-hex_pairs [] = omega arith
length-hex_pairs (c ∷ []) = omega arith
length-hex_pairs (c ∷ d ∷ text) = omega (arith, length-hex_pairs text)
