-- ===== src/Client/Commands/Networks.antt =====
-- The commands on configured networks, in wpa_ctrl/client.py. A `network_id` is the text that it is
-- written as.
use wpa_ctrl_py.Base.{Bool, List, [], ◌∷◌, Option, none, if◌then◌else◌}
use wpa_ctrl_py.Base.Int.{ℤ}
use wpa_ctrl_py.Text.{Text, codes, strip}
use wpa_ctrl_py.Replies.Rows.{Network, parse_networks}
use wpa_ctrl_py.Replies.Address.{Addressed, addressed_variables}
use wpa_ctrl_py.Ssid.Quote.{quote}
use wpa_ctrl_py.Transport.Exec.{Exec, ◌>>=◌, lift}
use wpa_ctrl_py.Client.State.{Client}
use wpa_ctrl_py.Client.Request.{request}
use wpa_ctrl_py.Client.Commands.Wording.{tell, ask, ask_text, identifier}

abbrev pub list_networks : Exec Client (List Network)
list_networks = ask (codes "LIST_NETWORKS" ∷ []) parse_networks

abbrev pub sta : Text → Exec Client (Option Addressed)
sta address = ask (codes "STA" ∷ address ∷ []) addressed_variables

abbrev pub add_network : Exec Client ℤ
add_network = request (codes "ADD_NETWORK") none >>= λ reply.
    lift (identifier (codes "ADD_NETWORK") (strip reply))

abbrev pub remove_network : Text → Exec Client (Unit {0})
remove_network network_id = tell (codes "REMOVE_NETWORK" ∷ network_id ∷ [])

abbrev pub set_network : Text → Text → Text → Bool → Exec Client (Unit {0})
set_network network_id variable value quoted =
    tell
      (codes "SET_NETWORK" ∷ network_id ∷ variable ∷ (if quoted then quote value else value) ∷ [])

abbrev pub get_network : Text → Text → Exec Client Text
get_network network_id variable = ask_text (codes "GET_NETWORK" ∷ network_id ∷ variable ∷ [])

abbrev pub enable_network : Text → Exec Client (Unit {0})
enable_network network_id = tell (codes "ENABLE_NETWORK" ∷ network_id ∷ [])

abbrev pub disable_network : Text → Exec Client (Unit {0})
disable_network network_id = tell (codes "DISABLE_NETWORK" ∷ network_id ∷ [])

abbrev pub select_network : Text → Exec Client (Unit {0})
select_network network_id = tell (codes "SELECT_NETWORK" ∷ network_id ∷ [])

abbrev pub set_bssid : Text → Text → Exec Client (Unit {0})
set_bssid network_id bssid = tell (codes "BSSID" ∷ network_id ∷ bssid ∷ [])

abbrev pub save_config : Exec Client (Unit {0})
save_config = tell (codes "SAVE_CONFIG" ∷ [])
