-- ===== src/Client/Request/Waiting.antt =====
-- When the loop of `request` finds its reply: the turns suffice, and events do not get in the way.
use wpa_ctrl_py.Base.{
  append-nil, length-append, ℕ, zero, suc, ◌+◌, ◌-◌, ◌<◌, ◌≤◌, ◌≡◌, refl, ap, ◌∙◌, true, false,
  List, [], ◌∷◌, ◌++◌, Option, arith, length, leb, All, le→leb, append_assoc, map,
}
use wpa_ctrl_py.Result.{ok}
use wpa_ctrl_py.Text.{Text, Bytes, rstrip}
use wpa_ctrl_py.Event.{Event, parse_event, is_event, is_newline}
use wpa_ctrl_py.Transport.World.{Arrival, datagram, data_in, max_ℕ}
use wpa_ctrl_py.Transport.Exec.{◌>>◌}
use wpa_ctrl_py.Transport.Socket.{open_link, send, timeout_or, connected, remaining}
use wpa_ctrl_py.Client.State.{on_link, Client, with_world}
use wpa_ctrl_py.Client.Request.{request, request_loop, set_aside}
use wpa_ctrl_py.Client.Request.Drains.{contents, inbox_of, loop-turn, turn_on, recv-inbox}
use wpa_ctrl_py.Client.Request.Sent.{connected-sent, request-sent}

-- A datagram and the time at which it arrives.
pub record Message : Type 0 where
  pub at : ℕ
  pub bytes : Bytes

abbrev pub arrival : Message → Arrival
arrival m = record { at = m.at; packet = datagram m.bytes }

abbrev pub said : Message → Text
said m = contents m.bytes

-- An event that leaves time before the deadline.
abbrev pub IsNotice : ℕ → Message → Type 0
IsNotice deadline m = (is_event (said m) ≡ true) × (m.at < deadline)

-- The events that messages are.
abbrev pub noticed : List Message → List Event
noticed [] = []
noticed (m ∷ ms) = parse_event (said m) ∷ noticed ms

-- The clock once these have been received.
abbrev pub clock_after : ℕ → List Message → ℕ
clock_after clock [] = clock
clock_after clock (m ∷ ms) = clock_after (max_ℕ clock m.at) ms

-- The client behind the reply.
abbrev pub answered : Client → List Message → Message → List Arrival → Client
answered c notices reply rest =
    let clock = max_ℕ (clock_after c.link.world.clock notices) reply.at in
    record (with_world c (record c.link.world { clock = clock; inbox = rest })) {
      events = c.events ++ noticed notices;
    }

pub timely :
    (clock deadline at : ℕ)
    → clock ≤ deadline
    → at ≤ deadline
    → leb at (clock + (deadline - clock)) ≡ true
timely clock deadline at h h' = le→leb at (clock + (deadline - clock)) (omega arith)

-- The first message of the inbox is received.
turn-message :
    (n deadline : ℕ) (c : Client) (m : Message) (rest : List Arrival)
    → connected c.link.transport ≡ true
    → c.link.world.clock ≤ deadline
    → m.at ≤ deadline
    → inbox_of c ≡ arrival m ∷ rest
    → request_loop (suc n) deadline c ≡ (
        let clock = max_ℕ c.link.world.clock m.at in
        turn_on n deadline
          (remaining deadline c.link)
          c
          (data_in m.bytes, record c.link.world { clock = clock; inbox = rest }))
turn-message n deadline c m rest on early intime same =
    let t = remaining deadline c.link in
    rw
      (
        loop-turn n deadline c on,
        recv-inbox t c.link.world (arrival m ∷ rest) same,
        timely c.link.world.clock deadline m.at early intime,
      )
      refl

pub le-max : (clock at deadline : ℕ) → clock < deadline → at < deadline → max_ℕ clock at < deadline
le-max clock at deadline early early' = ground arith

pub not-over :
    (clock at deadline : ℕ)
    → clock < deadline
    → at < deadline
    → leb (deadline - max_ℕ clock at) 0 ≡ false
not-over clock at deadline early early' = ground arith

pub length-map : (ms : List Message) → length (map arrival ms) ≡ length ms
length-map [] = refl
length-map (m ∷ ms) = ap suc (length-map ms)

loop-answered :
    (notices : List Message) (n deadline : ℕ) (c : Client) (reply : Message) (rest : List Arrival)
    → connected c.link.transport ≡ true
    → c.link.world.clock < deadline
    → inbox_of c ≡ map arrival notices ++ arrival reply ∷ rest
    → All (IsNotice deadline) notices
    → is_event (said reply) ≡ false
    → reply.at ≤ deadline
    → length notices < n
    → request_loop n deadline c
      ≡ (ok (rstrip is_newline (said reply)), answered c notices reply rest)
loop-answered notices zero deadline c reply rest on early same all h intime fuel =
    absurd (omega arith)
loop-answered [] (suc n) deadline c reply rest on early same all h intime fuel =
    turn-message n deadline c reply rest on (omega arith) intime same
    ∙ rw (h, append-nil c.events) refl
loop-answered (m ∷ notices) (suc n) deadline c reply rest on early same all h intime fuel =
    let behind = map arrival notices ++ arrival reply ∷ rest in
    let clock = max_ℕ c.link.world.clock m.at in
    let w = record c.link.world { clock = clock; inbox = behind } in
    let c' = set_aside (parse_event (said m)) (with_world c w) in
    let later =
      loop-answered notices n deadline c' reply rest on
        (le-max c.link.world.clock m.at deadline early all.0.1) refl all.1 h intime (omega arith) in
    turn-message n deadline c m behind on (omega arith) (omega arith) same
    ∙ rw (all.0.0, not-over c.link.world.clock m.at deadline early all.0.1)
        (later ∙ rw (append_assoc c.events (parse_event (said m) ∷ []) (noticed notices)) refl)

-- In a request whose command goes out, the reply is found behind any number of events, if the
-- timeout is not 0, they leave time and it arrives by the deadline: `request` answers its text without the newlines at its end,
-- and the events stand behind those set aside before, in the order in which they arrived.
pub request-answered :
    (command : Text) (timeout : Option ℕ) (c c' : Client) (notices : List Message) (reply : Message)
    (rest : List Arrival)
    → (on_link open_link >> on_link (send command)) c ≡ (ok tt, c')
    → inbox_of c' ≡ map arrival notices ++ arrival reply ∷ rest
    → All (IsNotice (c'.link.world.clock + timeout_or timeout c.timeout)) notices
    → 0 < timeout_or timeout c.timeout
    → is_event (said reply) ≡ false
    → reply.at ≤ c'.link.world.clock + timeout_or timeout c.timeout
    → request command timeout c
      ≡ (ok (rstrip is_newline (said reply)), answered c' notices reply rest)
request-answered command timeout c c' notices reply rest sent same all some_time h intime =
    let deadline = c'.link.world.clock + timeout_or timeout c.timeout in
    request-sent command timeout c c' sent
    ∙ loop-answered notices (suc (length (inbox_of c'))) deadline c' reply rest
        (connected-sent command c c' sent) (omega arith) same all h intime
        (enough (inbox_of c') same)
  where
    enough :
        (inbox : List Arrival)
        → inbox ≡ map arrival notices ++ arrival reply ∷ rest
        → length notices < suc (length inbox)
    enough inbox e = rw (e, length-append, length-map) (omega arith)
