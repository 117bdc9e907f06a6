-- ===== src/Ssid/Quote.antt =====
-- `quote`, `is_passphrase`, `is_raw_psk` and `psk_value` of wpa_ctrl/ssid.py.
pub mod Laws
use wpa_ctrl_py.Base.{ℕ, Bool, ◌&&◌, List, [], ◌∷◌, ◌++◌, leb, ◌==◌, if◌then◌else◌, length, all}
use wpa_ctrl_py.Text.{Text, codes, is_hex_digit}

-- `value.replace(old, new)` at a one-character `old`.
unfoldable pub replace : ℕ → Text → Text → Text
replace old new [] = []
replace old new (c ∷ text) = (if c == old then new else c ∷ []) ++ replace old new text

unfoldable pub quote : Text → Text
unfolding replace
quote value =
    b'"' ∷ (replace b'"' (codes "\\\"") (replace b'\\' (codes "\\\\") value) ++ codes "\"")

abbrev passphrase_min_length : ℕ
passphrase_min_length = 8

abbrev passphrase_max_length : ℕ
passphrase_max_length = 63

unfoldable pub is_passphrase : Text → Bool
is_passphrase secret =
    leb passphrase_min_length (length secret) && leb (length secret) passphrase_max_length

unfoldable pub is_raw_psk : Text → Bool
is_raw_psk secret = length secret == 64 && all is_hex_digit secret

unfoldable pub psk_value : Text → Text
psk_value secret = if is_raw_psk secret then secret else quote secret
