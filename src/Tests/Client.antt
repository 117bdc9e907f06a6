-- ===== src/Tests/Client.antt =====
-- A client of wpa_ctrl/client.py, and a daemon that answers behind an event.
use wpa_ctrl_py.Base.{
  ◌+◌, ◌≡◌, refl, true, false, List, [], ◌∷◌, ◌++◌, map, Option, none, some, arith, length, All,
}
use wpa_ctrl_py.Result.{ok}
use wpa_ctrl_py.Text.{Text, Bytes, codes, starts_with, rstrip}
use wpa_ctrl_py.Text.Utf8.{encode, encode_char, decode_replace}
use wpa_ctrl_py.Event.{Event, parse_event, is_event, is_newline}
use wpa_ctrl_py.Transport.World.{Arrival, send_data, max_ℕ, recv}
use wpa_ctrl_py.Transport.Exec.{◌>>◌, outcome, after}
use wpa_ctrl_py.Transport.Socket.{is_encodable, address_of, path_error}
use wpa_ctrl_py.Transport.Socket.{receive, open_link, open_socket, send, require_socket}
use wpa_ctrl_py.Client.State.{Client, on_link, with_world}
use wpa_ctrl_py.Client.Request.{request_loop, request, command, try_command}
use wpa_ctrl_py.Client.Request.Drains.{Drained, inbox_of, request-Drained}
use wpa_ctrl_py.Client.Request.Waiting.{
  Message, arrival, said, IsNotice, noticed, answered, clock_after, request-answered,
}
use wpa_ctrl_py.Client.Events.{next_event}
use wpa_ctrl_py.Client.Events.Order.{take_events, with_events, take_events-request}
use wpa_ctrl_py.Client.Stream.{Conserves}
use wpa_ctrl_py.Client.Stream.Handing.{handed}
use wpa_ctrl_py.Client.Stream.History.{started, requested, taken, use-Conserves}
use wpa_ctrl_py.Client.Events.Skipping.{next_event-found}
use wpa_ctrl_py.Client.Commands.Accepted.{Judged, command-Judged}
use wpa_ctrl_py.Client.Request.Once.{SendsOnce, request-SendsOnce}

abbrev notice : Message
notice = record { at = 1; bytes = codes "<3>AP-X a" }

abbrev reply : Message
reply = record { at = 2; bytes = codes "OK\n" }

abbrev pub client : Option Text → (List Bytes → List Arrival) → List Arrival → Client
client socket daemon inbox = record {
  link = record {
    transport = record {
      path = codes "/w";
      client_dir = codes "/t";
      timeout = 5;
      name = codes "m";
      socket = socket;
      client_path = none;
    };
    world = record {
      clock = 0;
      inbox = inbox;
      sent = [];
      daemon = daemon;
      files = [];
      has_abstract = true;
      can_create = true;
      can_unlink = true;
      can_bind = true;
      can_connect = true;
      can_send = true;
      can_select = true;
    };
  };
  timeout = 5;
  attached = false;
  events = [];
}

abbrev pub shut : Client
shut = client none (λ sent. arrival notice ∷ arrival reply ∷ []) []

-- The client once the command is out.
abbrev waiting : Client
waiting = after (on_link open_link >> on_link (send (codes "X"))) shut

sent : (on_link open_link >> on_link (send (codes "X"))) shut ≡ (ok tt, waiting)
unfolding open_link open_socket send require_socket encode encode_char send_data is_encodable
    address_of path_error starts_with
sent = refl

inbox_of-waiting : inbox_of waiting ≡ map arrival (notice ∷ []) ++ arrival reply ∷ []
unfolding open_link open_socket send require_socket encode encode_char send_data is_encodable
    address_of path_error starts_with
inbox_of-waiting = refl

clock-waiting : waiting.link.world.clock ≡ 0
unfolding open_link open_socket send require_socket encode encode_char send_data is_encodable
    address_of path_error starts_with
clock-waiting = refl

is_event-notice : is_event (said notice) ≡ true
unfolding is_event starts_with decode_replace
is_event-notice = refl

is_event-reply : is_event (said reply) ≡ false
unfolding is_event starts_with decode_replace
is_event-reply = refl

notices-IsNotice : All (IsNotice (waiting.link.world.clock + 5)) (notice ∷ [])
notices-IsNotice = ((is_event-notice, rw clock-waiting (omega arith)), tt)

request-answered_example :
    request (codes "X") none shut
    ≡ (ok (rstrip is_newline (said reply)), answered waiting (notice ∷ []) reply [])
request-answered_example =
    request-answered (codes "X") none shut waiting (notice ∷ []) reply [] sent inbox_of-waiting
      notices-IsNotice (omega arith) is_event-reply (rw clock-waiting (omega arith))

request-Drained_example :
    Drained (waiting.link.world.clock + 5) waiting (request (codes "X") none shut)
request-Drained_example = request-Drained (codes "X") none shut waiting sent

take_events-request_example :
    (let events = waiting.events ++ noticed (notice ∷ []) in
      take_events (length events) 0 (after (request (codes "X") none) shut) ≡ (
        ok (map (λ (e : Event). some e) events),
        with_events (answered waiting (notice ∷ []) reply []) [],
      ))
take_events-request_example =
    take_events-request (codes "X") none 0 shut waiting (notice ∷ []) reply [] sent inbox_of-waiting
      notices-IsNotice (omega arith) is_event-reply (rw clock-waiting (omega arith))

-- A reply that nobody awaits, and then an event.
abbrev stray : Message
stray = record { at = 0; bytes = codes "OK\n" }

abbrev listening : Client
listening = client (some (codes "/w")) (λ sent. []) (arrival stray ∷ arrival notice ∷ [])

next_event-found_example : next_event 3 listening ≡ (
  ok (some (parse_event (said notice))),
  with_world listening (record listening.link.world {
    clock = max_ℕ (clock_after listening.link.world.clock (stray ∷ [])) notice.at;
    inbox = [];
  }),
)
next_event-found_example =
    next_event-found 3 listening (stray ∷ []) notice [] refl refl refl (omega arith) refl
      ((is_event-reply, omega arith), tt) is_event-notice (omega arith)

command-Judged_example :
    Judged
      (codes "X")
      (outcome (request (codes "X") none) shut)
      (outcome (command (codes "X") none) shut)
      (outcome (try_command (codes "X") none) shut)
    × (after (command (codes "X") none) shut ≡ after (request (codes "X") none) shut)
    × (after (try_command (codes "X") none) shut ≡ after (request (codes "X") none) shut)
command-Judged_example = command-Judged (codes "X") none shut

request-SendsOnce_example : SendsOnce (codes "X") shut (request (codes "X") none shut)
request-SendsOnce_example = request-SendsOnce (codes "X") none shut

-- A request, and the event that came before its reply.
use-Conserves_example :
    (let asked = after (request (codes "X") none) shut in
      Conserves (handed (outcome (next_event 0) asked)) shut (after (next_event 0) asked))
use-Conserves_example =
    let asked = after (request (codes "X") none) shut in
    use-Conserves shut (after (next_event 0) asked) (handed (outcome (next_event 0) asked))
      (taken 0 (requested (codes "X") none started))

handed-asked :
    handed (outcome (next_event 0) (after (request (codes "X") none) shut))
    ≡ parse_event (said notice) ∷ []
unfolding next_event request request_loop open_link open_socket send require_socket encode
    encode_char send_data receive recv decode_replace is_event starts_with is_encodable address_of
    path_error
handed-asked = refl
