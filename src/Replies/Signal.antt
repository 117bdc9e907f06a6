-- ===== src/Replies/Signal.antt =====
-- `SignalPoll` and `Status` of wpa_ctrl/replies.py; a value of these classes is its dict.
use wpa_ctrl_py.Base.{ℕ, ◌-◌, Bool, false, Option, none, some, ◌==◌, if◌then◌else◌}
use wpa_ctrl_py.Base.Int.{ℤ, pos, negsuc}
use wpa_ctrl_py.Result.{Result, ok, ◌>>=◌}
use wpa_ctrl_py.Text.{Text, codes}
use wpa_ctrl_py.Ssid.Config.{Ssid}
use wpa_ctrl_py.Dict.{Dict, get}
use wpa_ctrl_py.Replies.Fields.{int_field, ssid_field, text_of}

abbrev pub invalid_noise : ℕ
invalid_noise = 9999

-- `a == b` of integers.
abbrev pub int_eq : ℤ → ℤ → Bool
int_eq (pos a) (pos b) = a == b
int_eq (negsuc a) (negsuc b) = a == b
int_eq _ _ = false

-- None where the value is the sentinel.
unfoldable pub unless_eq : ℤ → Result (Option ℤ) → Result (Option ℤ)
unless_eq sentinel value =
    value >>= λ v. ok (elim v [ none ↦ none | some n ↦ if int_eq n sentinel then none else some n ])

unfoldable pub rssi : Dict → Result (Option ℤ)
rssi d = unless_eq (negsuc (invalid_noise - 1)) (int_field d (codes "RSSI") 10)

abbrev pub linkspeed : Dict → Result (Option ℤ)
linkspeed d = int_field d (codes "LINKSPEED") 10

unfoldable pub noise : Dict → Result (Option ℤ)
noise d = unless_eq (pos invalid_noise) (int_field d (codes "NOISE") 10)

abbrev pub frequency : Dict → Result (Option ℤ)
frequency d = int_field d (codes "FREQUENCY") 10

abbrev pub width : Dict → Option Text
width d = get (codes "WIDTH") d

abbrev pub center_frq1 : Dict → Result (Option ℤ)
center_frq1 d = int_field d (codes "CENTER_FRQ1") 10

abbrev pub center_frq2 : Dict → Result (Option ℤ)
center_frq2 d = int_field d (codes "CENTER_FRQ2") 10

abbrev pub avg_rssi : Dict → Result (Option ℤ)
avg_rssi d = int_field d (codes "AVG_RSSI") 10

abbrev pub avg_beacon_rssi : Dict → Result (Option ℤ)
avg_beacon_rssi d = int_field d (codes "AVG_BEACON_RSSI") 10

-- `Status.ssid_bytes` and `Status.ssid_text`.
abbrev pub status_ssid_bytes : Dict → Result (Option Ssid)
status_ssid_bytes d = ssid_field d (codes "ssid")

abbrev pub status_ssid_text : Dict → Result (Option Text)
status_ssid_text d = text_of (status_ssid_bytes d)
