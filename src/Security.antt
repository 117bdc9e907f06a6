-- ===== src/Security.antt =====
-- wpa_ctrl/security.py: what an access point advertises.
pub mod Suites
pub mod Groups
pub mod Views
pub mod Adding
pub mod Order
use wpa_ctrl_py.Base.{
  Bool, true, false, not, ◌&&◌, ◌||◌, List, [], ◌∷◌, ◌++◌, Option, none, some, if◌then◌else◌,
  is_empty, any, drop, length, ◌+◌,
}
use wpa_ctrl_py.Text.{Text, codes, text_eq, starts_with, contains, partition, split}
use wpa_ctrl_py.Text.Constants.{Constant, constant}
use wpa_ctrl_py.TextSet
use wpa_ctrl_py.TextSet.{TextSet}
use wpa_ctrl_py.Security.Suites.{scan_key_mgmt}

-- The class `KeyMgmt`: the names in a configuration.
abbrev pub key_mgmt_names : List Constant
key_mgmt_names =
    constant "NONE" "NONE"
    ∷ constant "WPA_PSK" "WPA-PSK"
    ∷ constant "WPA_EAP" "WPA-EAP"
    ∷ constant "IEEE8021X" "IEEE8021X"
    ∷ constant "SAE" "SAE"
    ∷ constant "FT_PSK" "FT-PSK"
    ∷ constant "FT_EAP" "FT-EAP"
    ∷ constant "FT_SAE" "FT-SAE"
    ∷ constant "OWE" "OWE"
    ∷ constant "DPP" "DPP"
    ∷ []

-- The class `Pmf`: the values of ieee80211w.
abbrev pub pmf_values : List Constant
pmf_values = constant "DISABLED" "0" ∷ constant "OPTIONAL" "1" ∷ constant "REQUIRED" "2" ∷ []

-- `_PROTOCOLS`.
abbrev pub protocol_names : List Text
protocol_names = codes "WPA2" ∷ codes "WPA" ∷ codes "RSN" ∷ codes "OSEN" ∷ []

pub record Security : Type 0 where
  pub key_mgmt : TextSet
  pub protocols : TextSet
  pub flags : TextSet

-- `text.endswith(suffix)`.
ends_with : Text → Text → Bool
ends_with suffix [] = is_empty suffix
ends_with suffix (c ∷ text) = text_eq suffix (c ∷ text) || ends_with suffix text

unfoldable pub wep : Security → Bool
wep s = TextSet.member (codes "WEP") s.flags

unfoldable pub open_network : Security → Bool
open_network s = is_empty s.key_mgmt && is_empty s.protocols && not (wep s)

-- `name == base or name.endswith("/" + base) or name.startswith(base + "-")`.
unfoldable pub names_suite : Text → Text → Bool
unfolding ends_with text_eq starts_with
names_suite base name =
    text_eq name base || ends_with (b'/' ∷ base) name || starts_with (base ++ b'-' ∷ []) name

unfoldable pub psk : Security → Bool
psk s = any (names_suite (codes "PSK")) s.key_mgmt

unfoldable pub sae : Security → Bool
sae s = any (names_suite (codes "SAE")) s.key_mgmt

-- The test of `enterprise`, on the name of a key management suite.
abbrev pub is_enterprise : Text → Bool
is_enterprise name =
    text_eq name (codes "EAP") || contains (codes "/EAP") name || starts_with (codes "EAP-") name

unfoldable pub enterprise : Security → Bool
enterprise s = any is_enterprise s.key_mgmt

unfoldable pub owe : Security → Bool
owe s = TextSet.member (codes "OWE") s.key_mgmt

unfoldable pub transition_mode : Security → Bool
transition_mode s = psk s && sae s

unfoldable pub sae_only : Security → Bool
sae_only s = sae s && not (psk s)

unfoldable pub pmf_required : Security → Bool
pmf_required s = TextSet.member (codes "MFPR") s.flags

unfoldable pub pmf_capable : Security → Bool
pmf_capable s = TextSet.member (codes "MFPC") s.flags

-- The loop over the protocols: the protocol, and the body behind it.
pub record Suite : Type 0 where
  pub protocol : Text
  pub body : Text

unfoldable pub find_protocol : List Text → Text → Option Suite
find_protocol [] group = none
find_protocol (p ∷ protocols) group =
    if starts_with (p ++ b'-' ∷ []) group
    then some (record { protocol = p; body = drop (length p + 1) group })
    else find_protocol protocols group

-- One group that is not empty.
abbrev pub add_suite : Text → Option Suite → Security → Security
add_suite group (some suite) s = record s {
  protocols = TextSet.add suite.protocol s.protocols;
  key_mgmt = TextSet.update (scan_key_mgmt suite.body) s.key_mgmt;
}
add_suite group none s = record s { flags = TextSet.add group s.flags }

-- One round of the loop, with what stands behind the bracket.
unfoldable pub add_group : Text → Security → Security
add_group group s =
    if is_empty group then s else add_suite group (find_protocol protocol_names group) s

unfoldable pub add_groups : List Text → Security → Security
add_groups [] s = s
add_groups (piece ∷ pieces) s = add_groups pieces (add_group (partition b'[' piece).after s)

abbrev pub no_security : Security
no_security = record { key_mgmt = []; protocols = []; flags = [] }

unfoldable pub parse_security : Text → Security
parse_security flags = add_groups (split b']' flags) no_security
