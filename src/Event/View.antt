-- ===== src/Event/View.antt =====
-- The typed views of events: `_EventView`, `Disconnected` and `SsidTempDisabled` of
-- wpa_ctrl/events.py, `DppTx` and `DppTxStatus` of wpa_ctrl/dpp.py. A view is its dict.
pub mod Disabled
use wpa_ctrl_py.Base.{Bool, true, false, Option, none, some, if◌then◌else◌}
use wpa_ctrl_py.Base.Int.{ℤ}
use wpa_ctrl_py.Result.{Result, ok, err, value_error}
use wpa_ctrl_py.Text.{Text, codes, text_eq}
use wpa_ctrl_py.Dict.{Dict, get}
use wpa_ctrl_py.Ssid.Config.{Ssid}
use wpa_ctrl_py.Replies.Fields.{int_field, ssid_field, text_of}
use wpa_ctrl_py.Event.{Event}
use wpa_ctrl_py.Event.Params.{parse_params}

-- `from_event` of the view that reads events of this name.
unfoldable pub from_event : Text → Event → Result Dict
from_event name e = if text_eq e.name name then ok (parse_params e.params) else err value_error

-- `self.get(key) == value`.
abbrev pub is_value : Text → Option Text → Bool
is_value value none = false
is_value value (some found) = text_eq found value

abbrev pub disconnected : Text
disconnected = codes "CTRL-EVENT-DISCONNECTED"

abbrev pub disconnected_bssid : Dict → Option Text
disconnected_bssid d = get (codes "bssid") d

abbrev pub disconnected_reason : Dict → Result (Option ℤ)
disconnected_reason d = int_field d (codes "reason") 10

abbrev pub locally_generated : Dict → Bool
locally_generated d = is_value (codes "1") (get (codes "locally_generated") d)

abbrev pub ssid_temp_disabled : Text
ssid_temp_disabled = codes "CTRL-EVENT-SSID-TEMP-DISABLED"

abbrev pub disabled_id : Dict → Result (Option ℤ)
disabled_id d = int_field d (codes "id") 10

abbrev pub disabled_ssid_bytes : Dict → Result (Option Ssid)
disabled_ssid_bytes d = ssid_field d (codes "ssid")

abbrev pub disabled_ssid_text : Dict → Result (Option Text)
disabled_ssid_text d = text_of (disabled_ssid_bytes d)

abbrev pub auth_failures : Dict → Result (Option ℤ)
auth_failures d = int_field d (codes "auth_failures") 10

abbrev pub disabled_duration : Dict → Result (Option ℤ)
disabled_duration d = int_field d (codes "duration") 10

abbrev pub disabled_reason : Dict → Option Text
disabled_reason d = get (codes "reason") d

abbrev pub dpp_tx : Text
dpp_tx = codes "DPP-TX"

abbrev pub dpp_tx_status : Text
dpp_tx_status = codes "DPP-TX-STATUS"

abbrev pub dpp_tx_dst : Dict → Option Text
dpp_tx_dst d = get (codes "dst") d

abbrev pub dpp_tx_frequency : Dict → Result (Option ℤ)
dpp_tx_frequency d = int_field d (codes "freq") 10

abbrev pub dpp_tx_type : Dict → Result (Option ℤ)
dpp_tx_type d = int_field d (codes "type") 10

abbrev pub dpp_tx_status_dst : Dict → Option Text
dpp_tx_status_dst d = get (codes "dst") d

abbrev pub dpp_tx_status_frequency : Dict → Result (Option ℤ)
dpp_tx_status_frequency d = int_field d (codes "freq") 10

abbrev pub dpp_tx_result : Dict → Option Text
dpp_tx_result d = get (codes "result") d

abbrev pub acknowledged : Dict → Bool
acknowledged d = is_value (codes "SUCCESS") (dpp_tx_result d)
