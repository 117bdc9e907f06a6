-- ===== src/Tests/Commands.antt =====
-- The commands and the walks of wpa_ctrl/client.py on the clients of its tests.
use wpa_ctrl_py.Base.Int.{pos}
use wpa_ctrl_py.Text.Number.{to_int, decimal_ℤ}
use wpa_ctrl_py.Replies.Parse.{add_variables, add_variable, parse_table, table_rows, row_fields}
use wpa_ctrl_py.Base.{◌++◌, List, ◌≡◌, ◌≤◌, refl, true, [], ◌∷◌, none, some, arith, length, take}
use wpa_ctrl_py.Result.{ok}
use wpa_ctrl_py.Text.{
  partition, Bytes, text_eq, codes, starts_with, rstrip, splitlines, is_line_end, split, strip,
  join,
}
use wpa_ctrl_py.Text.Utf8.{encode, encode_char, decode_replace}
use wpa_ctrl_py.Event.{is_event}
use wpa_ctrl_py.TextSet.{member}
use wpa_ctrl_py.Transport.World.{Arrival, send_data, recv}
use wpa_ctrl_py.Transport.Exec.{outcome, after}
use wpa_ctrl_py.Transport.Socket.{is_encodable, address_of, path_error}
use wpa_ctrl_py.Transport.Socket.{receive, open_link, open_socket, send, require_socket}
use wpa_ctrl_py.Client.State.{Client}
use wpa_ctrl_py.Client.Request.{request_loop, request, command}
use wpa_ctrl_py.Client.Request.Waiting.{Message, arrival}
use wpa_ctrl_py.Replies.Rows.{Network, parse_networks, readable, read_network}
use wpa_ctrl_py.Client.Commands.Pages.{was_seen, unseen, network_pages, iter_networks, flatten}
use wpa_ctrl_py.Client.Commands.Pages.Distinct.{NewPages, iter_networks-NewPages}
use wpa_ctrl_py.Client.Request.Once.{sent_by}
use wpa_ctrl_py.Ssid.Quote.{quote}
use wpa_ctrl_py.Client.Commands.Networks.{set_network}
use wpa_ctrl_py.Client.Commands.Carried.{Carries, set_network-Carries}
use wpa_ctrl_py.Client.Commands.Sending.{SendsAtMost, Thrifty}
use wpa_ctrl_py.Client.Commands.Sending.Generators.{iter-SendsAtMost}
use wpa_ctrl_py.Dict
use wpa_ctrl_py.Dict.{Dict}
use wpa_ctrl_py.Replies.Parse.{parse_variables}
use wpa_ctrl_py.Replies.Address.{Addressed, addressed_variables, is_address}
use wpa_ctrl_py.Client.Commands.Serving.{ServesAddressed, iter_addressed-Serves}
use wpa_ctrl_py.Client.Commands.Walks.{iter_bss, iter_stations, iter_p2p_peers, Keyed, addressed}
use wpa_ctrl_py.Tests.Client.{client, shut}

-- A daemon that answers the same page to every command.
abbrev page : Message
page = record { at = 1; bytes = codes "h\n7\tn\ta\tf\n" }

abbrev repeating : Client
repeating = client none (λ sent. arrival page ∷ []) []

abbrev network : Network
network = record { id = pos 7; ssid = codes "n"; bssid = codes "a"; flags = codes "f" }

iter_networks-repeating : outcome (iter_networks 5) repeating ≡ ok (network ∷ [])
unfolding iter_networks network_pages unseen was_seen request request_loop open_link open_socket
    send require_socket encode encode_char send_data receive recv decode_replace is_event
    starts_with rstrip strip join splitlines is_line_end is_encodable address_of path_error
    parse_networks readable read_network parse_table table_rows row_fields split to_int decimal_ℤ
iter_networks-repeating = refl

iter_networks-NewPages_example :
    (pages : List (List Network)) × (outcome
        (network_pages 5 5 [] (codes "LIST_NETWORKS"))
        repeating
      ≡ ok pages)
    × (network ∷ [] ≡ flatten pages)
    × NewPages [] pages
    × length (network ∷ []) ≤ 5
iter_networks-NewPages_example =
    iter_networks-NewPages 5 repeating (network ∷ []) iter_networks-repeating

iter-SendsAtMost_example :
    Thrifty 3 shut (iter_bss 3 none shut)
    × Thrifty 3 shut (iter_stations 3 shut)
    × Thrifty 3 shut (iter_p2p_peers 3 shut)
    × Thrifty 3 shut (iter_networks 3 shut)
    × SendsAtMost 3 shut (after (network_pages 7 3 [] (codes "LIST_NETWORKS")) shut)
iter-SendsAtMost_example = iter-SendsAtMost 3 7 none shut

abbrev nothing : Message
nothing = record { at = 2; bytes = [] }

-- A daemon that has one thing to tell, to the first command, and no more to those that follow.
abbrev once : Message → List Bytes → List Arrival
once m (text ∷ []) = arrival m ∷ []
once m _ = arrival nothing ∷ []

abbrev first_bss : Message
first_bss = record { at = 1; bytes = codes "id=0\nssid=n\n" }

abbrev one_bss : Client
one_bss = client none (once first_bss) []

abbrev bss_of : Dict
bss_of = (codes "id", codes "0") ∷ (codes "ssid", codes "n") ∷ []

abbrev first_station : Message
first_station = record { at = 1; bytes = codes "02:00:00:00:01:00\naid=1\n" }

abbrev one_station : Client
one_station = client none (once first_station) []

abbrev station : Keyed Addressed
station = (
  codes "02:00:00:00:01:00",
  record { address = codes "02:00:00:00:01:00"; variables = (codes "aid", codes "1") ∷ [] },
)

station-first :
    addressed (codes "STA-FIRST") one_station
    ≡ (ok (some station), after (addressed (codes "STA-FIRST")) one_station)
unfolding request request_loop open_link open_socket send require_socket encode encode_char
    send_data receive recv decode_replace is_event starts_with rstrip strip join splitlines
    is_line_end is_encodable address_of path_error parse_variables addressed_variables is_address
    add_variables add_variable partition split Dict.set text_eq
station-first = refl

station-next :
    (let c = after (addressed (codes "STA-FIRST")) one_station in
      let command = codes "STA-NEXT " ++ station.0 in
      addressed command c ≡ (ok none, after (addressed command) c))
unfolding request request_loop open_link open_socket send require_socket encode encode_char
    send_data receive recv decode_replace is_event starts_with rstrip strip join splitlines
    is_line_end is_encodable address_of path_error parse_variables addressed_variables is_address
    add_variables add_variable partition split Dict.set text_eq
station-next = refl

peer-first :
    addressed (codes "P2P_PEER FIRST") one_station
    ≡ (ok (some station), after (addressed (codes "P2P_PEER FIRST")) one_station)
unfolding request request_loop open_link open_socket send require_socket encode encode_char
    send_data receive recv decode_replace is_event starts_with rstrip strip join splitlines
    is_line_end is_encodable address_of path_error parse_variables addressed_variables is_address
    add_variables add_variable partition split Dict.set text_eq
peer-first = refl

peer-next :
    (let c = after (addressed (codes "P2P_PEER FIRST")) one_station in
      let command = codes "P2P_PEER NEXT-" ++ station.0 in
      addressed command c ≡ (ok none, after (addressed command) c))
unfolding request request_loop open_link open_socket send require_socket encode encode_char
    send_data receive recv decode_replace is_event starts_with rstrip strip join splitlines
    is_line_end is_encodable address_of path_error parse_variables addressed_variables is_address
    add_variables add_variable partition split Dict.set text_eq
peer-next = refl

iter_addressed-Serves_example :
    (outcome (iter_stations 3) one_station ≡ ok (take 3 (station ∷ [])))
    × (outcome (iter_p2p_peers 3) one_station ≡ ok (take 3 (station ∷ [])))
unfolding member
iter_addressed-Serves_example =
    iter_addressed-Serves 3 one_station (station ∷ []) (station ∷ [])
      (ServesAddressed.one_more station-first (ServesAddressed.no_more station-next)) (refl, tt)
      (ServesAddressed.one_more peer-first (ServesAddressed.no_more peer-next)) (refl, tt)

set_network-Carries_example :
    Carries
      (codes "SET_NETWORK")
      (codes "0" ∷ codes "ssid" ∷ quote (codes "My Net") ∷ [])
      shut
      (set_network (codes "0") (codes "ssid") (codes "My Net") true shut)
set_network-Carries_example =
    set_network-Carries (codes "0") (codes "ssid") (codes "My Net") true shut (omega arith, tt)
      (omega arith, (omega arith, (omega arith, (omega arith, tt))))

sent_by-set_network :
    sent_by (after (set_network (codes "0") (codes "ssid") (codes "My Net") true) shut)
    ≡ codes "SET_NETWORK 0 ssid \"My Net\"" ∷ []
unfolding command request request_loop open_link open_socket send require_socket encode encode_char
    send_data receive recv decode_replace is_event starts_with rstrip join strip text_eq quote
    is_encodable address_of path_error
sent_by-set_network = refl
