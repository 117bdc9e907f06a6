-- ===== src/Ssid/Config/RoundTrip.antt =====
-- `Ssid.from_config` reads back what `Ssid.config_value` writes (wpa_ctrl/ssid.py).
use wpa_ctrl_py.Base.{
  ℕ, ◌/◌, ◌%◌, ◌≡◌, ◌≢◌, refl, ◌∙◌, inl, inr, true, [], ◌∷◌, arith, length, all, All, Bool-cases,
}
use wpa_ctrl_py.Result.{ok}
use wpa_ctrl_py.Text.{Text, between, starts_with, is_hex_digit, to_hex}
use wpa_ctrl_py.Text.Utf8.Ascii.{IsAscii, IsByte, encode_ascii}
use wpa_ctrl_py.Ssid.Printf.Escape.{hex_digit-is_hex_digit, hex_pair}
use wpa_ctrl_py.Ssid.Config.{Ssid, from_config, config_value}
use wpa_ctrl_py.Ssid.Config.Forms.{
  IsBare, from_config_literal, from_config_bare, hex_pairs, from_bare_lem,
}

printable-IsAscii : (ssid : Ssid) → all (between 32 126) ssid ≡ true → All IsAscii ssid
printable-IsAscii [] h = tt
printable-IsAscii (b ∷ ssid) h = ground (arith, printable-IsAscii ssid)

all-to_hex : (ssid : Ssid) → All IsByte ssid → all is_hex_digit (to_hex ssid) ≡ true
unfolding to_hex
all-to_hex [] h = refl
all-to_hex (b ∷ ssid) h = rw (
  hex_digit-is_hex_digit (b / 16) (omega arith),
  hex_digit-is_hex_digit (b % 16) (omega arith),
  all-to_hex ssid h.1,
)

even-to_hex : (ssid : Ssid) → length (to_hex ssid) % 2 ≡ 0
unfolding to_hex
even-to_hex [] = refl
even-to_hex (b ∷ ssid) = omega (arith, even-to_hex ssid)

hex_pairs-to_hex : (ssid : Ssid) → All IsByte ssid → hex_pairs (to_hex ssid) ≡ ssid
unfolding to_hex
hex_pairs-to_hex [] h = refl
hex_pairs-to_hex (b ∷ ssid) h = rw (hex_pair b h.0, hex_pairs-to_hex ssid h.1)

hex_digit_no_quote : (c : ℕ) → is_hex_digit c ≡ true → (c ≢ b'"') × (c ≢ b'P')
hex_digit_no_quote c h = ground arith

pub IsBare-hex : (value : Text) → all is_hex_digit value ≡ true → IsBare value
unfolding starts_with
IsBare-hex [] h = (refl, refl)
IsBare-hex (c ∷ value) h = ground arith

-- Every octet string is read back from the value that is written for it.
pub from_config-config_value :
    (ssid : Ssid) → All IsByte ssid → from_config (config_value ssid) ≡ ok ssid
unfolding config_value
from_config-config_value ssid h = elim (Bool-cases (all (between 32 126) ssid)) [
  | inl p ↦ rw p (from_config_literal ssid ∙ encode_ascii ssid (printable-IsAscii ssid p))
  | inr p ↦ rw p (
      from_config_bare _ (IsBare-hex _ (all-to_hex ssid h))
      ∙ from_bare_lem (to_hex ssid)
      ∙ rw (even-to_hex ssid, all-to_hex ssid h, hex_pairs-to_hex ssid h))
]
