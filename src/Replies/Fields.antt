-- ===== src/Replies/Fields.antt =====
-- `_Variables` of wpa_ctrl/replies.py: the accessors that the typed replies and events share.
use wpa_ctrl_py.Base.{ℕ, Option, none, some}
use wpa_ctrl_py.Base.Int.{ℤ}
use wpa_ctrl_py.Result.{Result, ok, ◌>>=◌}
use wpa_ctrl_py.Text.{Text, Bytes, from_hex}
use wpa_ctrl_py.Text.Number.{to_int}
use wpa_ctrl_py.Ssid.Config
use wpa_ctrl_py.Ssid.Config.{Ssid, from_printf}
use wpa_ctrl_py.Dict.{Dict, get}

-- Reads a value that is there: None stays None.
abbrev pub optionally {ℓ} : {A : Type ℓ} → (Text → Result A) → Option Text → Result (Option A)
optionally read none = ok none
optionally read (some value) = read value >>= λ a. ok (some a)

-- `_int`.
unfoldable pub int_field : Dict → Text → ℕ → Result (Option ℤ)
int_field variables key base = optionally (to_int base) (get key variables)

-- `ssid_bytes` of the types with an `ssid` field.
unfoldable pub ssid_field : Dict → Text → Result (Option Ssid)
ssid_field variables key = optionally from_printf (get key variables)

-- `ssid_text`, from what `ssid_bytes` answers.
unfoldable pub text_of : Result (Option Ssid) → Result (Option Text)
text_of ssid = ssid >>= λ octets. ok (elim octets [ none ↦ none | some o ↦ Config.text o ])

-- A hexdump.
unfoldable pub hex_field : Dict → Text → Result (Option Bytes)
hex_field variables key = optionally from_hex (get key variables)
