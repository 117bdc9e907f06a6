-- ===== src/Client/Commands/Station.antt =====
-- The commands on the station and its scans, in wpa_ctrl/client.py. Each is one request.
use wpa_ctrl_py.Base.{ℕ, Bool, false, List, [], ◌∷◌, Option, if◌then◌else◌}
use wpa_ctrl_py.Base.Int.{ℤ}
use wpa_ctrl_py.Text.{Text, codes, words, splitlines}
use wpa_ctrl_py.Text.Number.{decimal_ℤ, prefixed_hex}
use wpa_ctrl_py.Dict.{Dict}
use wpa_ctrl_py.TextSet.{member}
use wpa_ctrl_py.Replies.Parse.{parse_variables}
use wpa_ctrl_py.Replies.Rows.{PmksaEntry, ScanResult, parse_pmksa, parse_scan_results}
use wpa_ctrl_py.Transport.Exec.{Exec, ◌>>=◌, pure, lift}
use wpa_ctrl_py.Client.State.{Client}
use wpa_ctrl_py.Client.Commands.Wording.{tell, ask, optional, map_option, nonempty}

abbrev pub mib : Exec Client Dict
mib = ask (codes "MIB" ∷ []) parse_variables

abbrev pub status : Bool → Exec Client Dict
status verbose =
    ask ((if verbose then codes "STATUS-VERBOSE" else codes "STATUS") ∷ []) parse_variables

abbrev pub pmksa : Exec Client (List PmksaEntry)
pmksa = ask (codes "PMKSA" ∷ []) parse_pmksa >>= lift

abbrev pub set_variable : Text → Text → Exec Client (Unit {0})
set_variable variable value = tell (codes "SET" ∷ variable ∷ value ∷ [])

abbrev pub logon : Exec Client (Unit {0})
logon = tell (codes "LOGON" ∷ [])

abbrev pub logoff : Exec Client (Unit {0})
logoff = tell (codes "LOGOFF" ∷ [])

abbrev pub reassociate : Exec Client (Unit {0})
reassociate = tell (codes "REASSOCIATE" ∷ [])

abbrev pub reconnect : Exec Client (Unit {0})
reconnect = tell (codes "RECONNECT" ∷ [])

abbrev pub preauth : Text → Exec Client (Unit {0})
preauth bssid = tell (codes "PREAUTH" ∷ bssid ∷ [])

abbrev pub level : ℤ → Exec Client (Unit {0})
level debug_level = tell (codes "LEVEL" ∷ decimal_ℤ debug_level ∷ [])

abbrev pub reconfigure : Exec Client (Unit {0})
reconfigure = tell (codes "RECONFIGURE" ∷ [])

abbrev pub terminate : Exec Client (Unit {0})
terminate = tell (codes "TERMINATE" ∷ [])

abbrev pub disconnect : Exec Client (Unit {0})
disconnect = tell (codes "DISCONNECT" ∷ [])

abbrev pub scan : Exec Client (Unit {0})
scan = tell (codes "SCAN" ∷ [])

abbrev pub scan_results : Exec Client (List ScanResult)
scan_results = ask (codes "SCAN_RESULTS" ∷ []) parse_scan_results

abbrev pub bss : Text → Option ℕ → Exec Client Dict
bss selector mask =
    ask (codes "BSS" ∷ selector ∷ optional "MASK=" (map_option prefixed_hex mask)) parse_variables

abbrev pub ap_scan : ℤ → Exec Client (Unit {0})
ap_scan value = tell (codes "AP_SCAN" ∷ decimal_ℤ value ∷ [])

abbrev pub get_capability : Text → Bool → Exec Client (List Text)
get_capability option strict =
    ask (codes "GET_CAPABILITY" ∷ option ∷ (if strict then codes "strict" ∷ [] else [])) words

abbrev pub supports_key_mgmt : Text → Exec Client Bool
supports_key_mgmt name =
    get_capability (codes "key_mgmt") false >>= λ names. pure (member name names)

abbrev pub interfaces : Exec Client (List Text)
interfaces = ask (codes "INTERFACES" ∷ []) (λ reply. nonempty (splitlines reply))

abbrev pub signal_poll : Exec Client Dict
signal_poll = ask (codes "SIGNAL_POLL" ∷ []) parse_variables

abbrev pub bss_expire_count : ℤ → Exec Client (Unit {0})
bss_expire_count count = tell (codes "BSS_EXPIRE_COUNT" ∷ decimal_ℤ count ∷ [])
