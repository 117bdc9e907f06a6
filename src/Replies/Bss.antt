-- ===== src/Replies/Bss.antt =====
-- The properties of `Bss` of wpa_ctrl/replies.py; a `Bss` is its dict.
use wpa_ctrl_py.Base.{Option, none, some}
use wpa_ctrl_py.Base.Int.{ℤ}
use wpa_ctrl_py.Result.{Result}
use wpa_ctrl_py.Text.{Text, Bytes, codes}
use wpa_ctrl_py.Ssid.Config.{Ssid}
use wpa_ctrl_py.Dict.{Dict, get}
use wpa_ctrl_py.Security.{Security, parse_security}
use wpa_ctrl_py.Replies.Fields.{int_field, ssid_field, text_of, hex_field}

abbrev pub id : Dict → Result (Option ℤ)
id d = int_field d (codes "id") 10

abbrev pub bssid : Dict → Option Text
bssid d = get (codes "bssid") d

abbrev pub frequency : Dict → Result (Option ℤ)
frequency d = int_field d (codes "freq") 10

abbrev pub signal_level : Dict → Result (Option ℤ)
signal_level d = int_field d (codes "level") 10

abbrev pub noise : Dict → Result (Option ℤ)
noise d = int_field d (codes "noise") 10

abbrev pub snr : Dict → Result (Option ℤ)
snr d = int_field d (codes "snr") 10

abbrev pub qual : Dict → Result (Option ℤ)
qual d = int_field d (codes "qual") 10

abbrev pub age : Dict → Result (Option ℤ)
age d = int_field d (codes "age") 10

abbrev pub beacon_interval : Dict → Result (Option ℤ)
beacon_interval d = int_field d (codes "beacon_int") 10

abbrev pub capabilities : Dict → Result (Option ℤ)
capabilities d = int_field d (codes "capabilities") 16

abbrev pub tsf : Dict → Result (Option ℤ)
tsf d = int_field d (codes "tsf") 10

abbrev pub est_throughput : Dict → Result (Option ℤ)
est_throughput d = int_field d (codes "est_throughput") 10

abbrev pub update_idx : Dict → Result (Option ℤ)
update_idx d = int_field d (codes "update_idx") 10

abbrev pub ap_mld_addr : Dict → Option Text
ap_mld_addr d = get (codes "ap_mld_addr") d

abbrev pub ssid : Dict → Option Text
ssid d = get (codes "ssid") d

abbrev pub ssid_bytes : Dict → Result (Option Ssid)
ssid_bytes d = ssid_field d (codes "ssid")

abbrev pub ssid_text : Dict → Result (Option Text)
ssid_text d = text_of (ssid_bytes d)

abbrev pub flags : Dict → Option Text
flags d = get (codes "flags") d

abbrev pub security : Dict → Option Security
security d = elim (get (codes "flags") d) [ none ↦ none | some text ↦ some (parse_security text) ]

abbrev pub ie : Dict → Result (Option Bytes)
ie d = hex_field d (codes "ie")

abbrev pub beacon_ie : Dict → Result (Option Bytes)
beacon_ie d = hex_field d (codes "beacon_ie")

abbrev pub wfd_subelems : Dict → Result (Option Bytes)
wfd_subelems d = hex_field d (codes "wfd_subelems")
