-- ===== src/Tests/Transport.antt =====
-- Connections of wpa_ctrl/transport.py.
use wpa_ctrl_py.Base.{
  arith, ◌≡◌, ◌++◌, refl, true, false, List, [], ◌∷◌, Option, none, some, is_empty,
}
use wpa_ctrl_py.Result.{ok, err, connection_error, timeout_error}
use wpa_ctrl_py.Text.{Bytes, Text, codes, starts_with}
use wpa_ctrl_py.Text.Utf8.{encode, encode_char}
use wpa_ctrl_py.Transport.World.{World, Arrival, datagram, recv, select_ready, send_data, max_ℕ}
use wpa_ctrl_py.Transport.Exec.{outcome, after}
use wpa_ctrl_py.Transport.Socket.Carrying.{receive-sent}
use wpa_ctrl_py.Transport.Socket.{
  send, Transport, Link, own_path, path_join, open_link, close_link, receive, pending,
  require_socket, is_encodable, address_of,
}
use wpa_ctrl_py.Transport.Socket.Lifecycle.{files_left, close_link-open_link}

-- A world without the abstract namespace, in which a connect fails.
abbrev world : List Arrival → World
world inbox = record {
  clock = 0;
  inbox = inbox;
  sent = [];
  daemon = λ sent. [];
  files = codes "/tmp/me" ∷ [];
  has_abstract = false;
  can_create = true;
  can_unlink = true;
  can_bind = true;
  can_connect = false;
  can_send = true;
  can_select = true;
}

abbrev transport : Option Text → Transport
transport socket = record {
  path = codes "/run/wlan0";
  client_dir = codes "/tmp";
  timeout = 5;
  name = codes "me";
  socket = socket;
  client_path = none;
}

abbrev shut : Link
shut = record { transport = transport none; world = world [] }

own_path-shut : is_empty (own_path shut.transport) ≡ false
unfolding path_join starts_with
own_path-shut = refl

path-shut : is_encodable (address_of shut.transport.path) ≡ true
unfolding is_encodable address_of starts_with
path-shut = refl

close_link-open_link_example :
    (after close_link (after open_link shut)).transport ≡ shut.transport
    × (after close_link (after open_link shut)).world.files ≡ files_left shut
close_link-open_link_example = close_link-open_link shut (refl, refl) own_path-shut refl path-shut

abbrev first : Arrival
first = record { at = 2; packet = datagram (codes "OK\n") }

abbrev waiting : Link
waiting = record { transport = transport (some (codes "/run/wlan0")); world = world (first ∷ []) }

pending-waiting : outcome (pending 3) waiting ≡ ok true
unfolding pending require_socket select_ready
pending-waiting = refl

abbrev quiet : Link
quiet = record { transport = transport (some (codes "/run/wlan0")); world = world [] }

-- With a timeout of 0 the socket does not block, and what is no time out is no WpaCtrlTimeout.
received-nothing :
    (outcome (receive (some 0)) quiet ≡ err connection_error)
    × (outcome (receive (some 3)) quiet ≡ err timeout_error)
unfolding receive require_socket recv
received-nothing = (refl, refl)

-- A text of two bytes from one end to the other.
abbrev sending : Link
sending = record { transport = transport (some (codes "/run/wlan0")); world = world [] }

abbrev bytes : Bytes
bytes = 0xc3 ∷ 0xa9 ∷ []

abbrev receiving : Link
receiving = record {
  transport = transport (some (codes "/run/wlan0"));
  world = world (record { at = 2; packet = datagram bytes } ∷ []);
}

sending-sent : send (0xe9 ∷ []) sending ≡ (ok tt, after (send (0xe9 ∷ [])) sending)
unfolding send require_socket encode encode_char send_data
sending-sent = refl

sending-bytes : (after (send (0xe9 ∷ [])) sending).world.sent ≡ sending.world.sent ++ bytes ∷ []
unfolding send require_socket encode encode_char send_data
sending-bytes = refl

receive-sent_example : receive none receiving ≡ (
  ok (0xe9 ∷ []),
  record receiving { world = record receiving.world { clock = max_ℕ 0 2; inbox = [] } },
)
receive-sent_example =
    receive-sent (0xe9 ∷ []) sending (after (send (0xe9 ∷ [])) sending) receiving bytes none 2 []
      ((omega arith, refl), tt) sending-sent sending-bytes (omega arith) refl refl (omega arith)
