-- ===== src/Replies/Rows.antt =====
-- The rows of LIST_NETWORKS, SCAN_RESULTS and PMKSA: `Network`, `ScanResult` and `PmksaEntry` of
-- wpa_ctrl/replies.py, and the parts of wpa_ctrl/client.py that build them.
pub mod Networks
pub mod Scans
use wpa_ctrl_py.Base.{Bool, List, [], ◌∷◌, Option, map, drop}
use wpa_ctrl_py.Base.Int.{ℤ}
use wpa_ctrl_py.Result.{Result, ok, err, value_error, ◌>>=◌}
use wpa_ctrl_py.Text.{Text, codes, contains, split, splitlines, strip}
use wpa_ctrl_py.Text.Number.{to_int}
use wpa_ctrl_py.Ssid.Config
use wpa_ctrl_py.Ssid.Config.{Ssid, from_printf}
use wpa_ctrl_py.Security.{Security, parse_security}
use wpa_ctrl_py.Replies.Parse.{parse_table}

pub record Network : Type 0 where
  pub id : ℤ
  pub ssid : Text
  pub bssid : Text
  pub flags : Text

unfoldable pub current : Network → Bool
current n = contains (codes "[CURRENT]") n.flags

unfoldable pub disabled : Network → Bool
disabled n = contains (codes "[DISABLED]") n.flags

abbrev pub network_ssid_bytes : Network → Result Ssid
network_ssid_bytes n = from_printf n.ssid

abbrev pub network_ssid_text : Network → Result (Option Text)
network_ssid_text n = network_ssid_bytes n >>= λ octets. ok (Config.text octets)

pub record ScanResult : Type 0 where
  pub bssid : Text
  pub frequency : ℤ
  pub signal_level : ℤ
  pub flags : Text
  pub ssid : Text

abbrev pub scan_security : ScanResult → Security
scan_security r = parse_security r.flags

abbrev pub scan_ssid_bytes : ScanResult → Result Ssid
scan_ssid_bytes r = from_printf r.ssid

abbrev pub scan_ssid_text : ScanResult → Result (Option Text)
scan_ssid_text r = scan_ssid_bytes r >>= λ octets. ok (Config.text octets)

pub record PmksaEntry : Type 0 where
  pub index : ℤ
  pub aa : Text
  pub pmkid : Text
  pub expiration : ℤ
  pub opportunistic : ℤ

-- The rows that can be read, each by `read`: the ValueError of `int` drops a row.
unfoldable pub readable {ℓ} : {A : Type ℓ} → (List Text → Result A) → List (List Text) → List A
readable read [] = []
readable read (row ∷ rows) =
    let rest = readable read rows in elim (read row) [ ok a ↦ a ∷ rest | err e ↦ rest ]

-- A row of the table has the fields that its number of columns says.
unfoldable pub read_network : List Text → Result Network
read_network (id ∷ ssid ∷ bssid ∷ flags ∷ []) = do
  n ← to_int 10 id
  ok (record { id = n; ssid = ssid; bssid = bssid; flags = flags })
read_network _ = err value_error

-- `WpaCtrl._parse_networks`.
unfoldable pub parse_networks : Text → List Network
parse_networks reply = readable read_network (parse_table reply 4)

unfoldable pub read_scan_result : List Text → Result ScanResult
read_scan_result (bssid ∷ frequency ∷ level ∷ flags ∷ ssid ∷ []) = do
  f ← to_int 10 frequency
  l ← to_int 10 level
  ok (record { bssid = bssid; frequency = f; signal_level = l; flags = flags; ssid = ssid })
read_scan_result _ = err value_error

-- The loop of `WpaCtrl.scan_results`.
unfoldable pub parse_scan_results : Text → List ScanResult
parse_scan_results reply = readable read_scan_result (parse_table reply 5)

-- The loop of `WpaCtrl.pmksa`: a line with too few fields is skipped, and the ValueError of a
-- number that does not read goes to the caller.
unfoldable pub pmksa_entries : List (List Text) → Result (List PmksaEntry)
pmksa_entries [] = ok []
pmksa_entries ((index ∷ aa ∷ pmkid ∷ expiration ∷ opportunistic ∷ more) ∷ rows) = do
  i ← to_int 10 index
  e ← to_int 10 expiration
  o ← to_int 10 opportunistic
  rest ← pmksa_entries rows
  ok (record { index = i; aa = aa; pmkid = pmkid; expiration = e; opportunistic = o } ∷ rest)
pmksa_entries (_ ∷ rows) = pmksa_entries rows

unfoldable pub parse_pmksa : Text → Result (List PmksaEntry)
parse_pmksa reply =
    pmksa_entries (map (λ line. map strip (split b'/' line)) (drop 1 (splitlines reply)))
