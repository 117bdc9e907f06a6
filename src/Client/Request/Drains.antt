-- ===== src/Client/Request/Drains.antt =====
-- What the loop of `request` takes off the socket, whatever arrives: nothing is lost on the way.
use wpa_ctrl_py.Base.{
  ◌-◌, ◌≤◌, ℕ, zero, suc, ◌+◌, ◌<◌, ◌≡◌, refl, sym, ap, ◌∙◌, inl, inr, true, false, List, [], ◌∷◌,
  ◌++◌, arith, Option, some, append-nil, append_assoc, leb, ◌==◌, length, take, Bool-cases,
}
use wpa_ctrl_py.Result.{is_wpa_error, Result, Error, ok, err, timeout_error, connection_error}
use wpa_ctrl_py.Text.{Text, Bytes, rstrip}
use wpa_ctrl_py.Text.Utf8.{decode_replace}
use wpa_ctrl_py.Event.{Event, parse_event, is_event, is_newline}
use wpa_ctrl_py.Transport.World.{
  max_ℕ, received, recv_from, World, Arrival, Packet, datagram, failure, Received, data_in,
  timed_out, recv,
}
use wpa_ctrl_py.Transport.Exec.{◌>>◌, continue}
use wpa_ctrl_py.Transport.Socket.{
  open_link, send, connected, recv_buffer, receive, received_text, remaining, require_socket,
}
use mathlib.Core.Path.{subst}
use wpa_ctrl_py.Client.Request.Sent.{connected-sent, request-sent}
use wpa_ctrl_py.Client.State.{Client, on_link, with_world}
use wpa_ctrl_py.Client.Request.{timeout_or, request, on_reply, request_loop, set_aside}

abbrev pub contents : Bytes → Text
contents bytes = decode_replace (take recv_buffer bytes)

-- Nothing comes by the deadline.
abbrev pub NoneBy : ℕ → List Arrival → Type 0
NoneBy deadline [] = Unit
NoneBy deadline (a ∷ inbox) = deadline < a.at

-- What the loop answers, the packets that it takes off the socket, and the events that it sets
-- aside: the answer is the first packet that is no event, and the events are those before it. It raises
-- a WpaCtrlError behind the last event that it sets aside, and only where nothing of what it leaves comes by the
-- deadline, or where that event left no time: `now`, the clock at the end, is the deadline or later.
pub data Drains (deadline now : ℕ) (left : List Arrival)
    : Result Text → List Packet → List Event → Type 0 where
  silent :
      (e : Error)
      → is_wpa_error e ≡ true
      → NoneBy deadline left
      → Drains deadline now left (err e) [] []
  broken : Drains deadline now left (err connection_error) (failure ∷ []) []
  answer :
      (bytes : Bytes)
      → is_event (contents bytes) ≡ false
      → Drains deadline now left (ok (rstrip is_newline (contents bytes))) (datagram bytes ∷ []) []
  late :
      (bytes : Bytes)
      → is_event (contents bytes) ≡ true
      → deadline ≤ now
      → Drains deadline now left
          (err timeout_error)
          (datagram bytes ∷ [])
          (parse_event (contents bytes) ∷ [])
  notice :
      (bytes : Bytes) {r : Result Text} {taken : List Packet} {events : List Event}
      → is_event (contents bytes) ≡ true
      → Drains deadline now left r taken events
      → Drains deadline now left r (datagram bytes ∷ taken) (parse_event (contents bytes) ∷ events)

abbrev pub packets : List Arrival → List Packet
packets [] = []
packets (a ∷ inbox) = a.packet ∷ packets inbox

abbrev pub inbox_of : Client → List Arrival
inbox_of c = c.link.world.inbox

-- A run from one state that ends in another has done this.
abbrev pub Drained : ℕ → Client → Result Text × Client → Type 0
Drained deadline c run =
    (taken : List Packet) × (events : List Event) × Drains deadline run.1.link.world.clock
      (inbox_of run.1) run.0 taken events
    × (packets (inbox_of c) ≡ taken ++ packets (inbox_of run.1))
    × (run.1.events ≡ c.events ++ events)

pub receive-connected :
    (t : ℕ) (c : Client)
    → connected c.link.transport ≡ true
    → on_link (receive (some t)) c
      ≡ (received_text t (recv t c.link.world).0, with_world c (recv t c.link.world).1)
unfolding receive require_socket
receive-connected t c h = rw h refl

-- What the loop makes of a `recv`.
abbrev pub turn_on : ℕ → ℕ → ℕ → Client → Received × World → Result Text × Client
turn_on n deadline t c got =
    continue (received_text t got.0) (λ reply. on_reply deadline reply (request_loop n deadline))
      (with_world c got.1)

pub loop-turn :
    (n deadline : ℕ) (c : Client)
    → connected c.link.transport ≡ true
    → request_loop (suc n) deadline c
      ≡ (let t = remaining deadline c.link in turn_on n deadline t c (recv t c.link.world))
unfolding request_loop
loop-turn n deadline c on =
    let turn = λ (run : Result Text × Client).
      continue run.0 (λ reply. on_reply deadline reply (request_loop n deadline)) run.1 in
    ap turn (receive-connected (remaining deadline c.link) c on)

Drained-timed_out :
    (n deadline t clock : ℕ) (c : Client)
    → NoneBy deadline (inbox_of c)
    → Drained deadline c (turn_on n deadline t c (timed_out, record c.link.world { clock = clock }))
Drained-timed_out n deadline t clock c quiet = elim (Bool-cases (t == 0)) [
  | inl e ↦ rw e ([], [], silent connection_error refl quiet, refl, sym (append-nil c.events))
  | inr e ↦ rw e ([], [], silent timeout_error refl quiet, refl, sym (append-nil c.events))
]

-- Behind a message: a rest of the run that drains makes the run drain.
Drained-message :
    (n deadline t : ℕ) (bytes : Bytes) (w : World) (a : Arrival) (c : Client)
    → ((c' : Client)
        → connected c'.link.transport ≡ true
        → c'.link.world.clock ≤ deadline
        → inbox_of c' ≡ w.inbox
        → Drained deadline c' (request_loop n deadline c'))
    → connected c.link.transport ≡ true
    → inbox_of c ≡ a ∷ w.inbox
    → a.packet ≡ datagram bytes
    → Drained deadline c (turn_on n deadline t c (data_in bytes, w))
Drained-message n deadline t bytes w a c rest on inbox packet =
    let c' = set_aside (parse_event (contents bytes)) (with_world c w) in
    let first : packets (inbox_of c) ≡ datagram bytes ∷ packets w.inbox =
      ap packets inbox ∙ ap (λ (p : Packet). p ∷ packets w.inbox) packet in
    elim (Bool-cases (is_event (contents bytes))) [
      | inl event ↦ elim (Bool-cases (leb (remaining deadline c'.link) 0)) [
        | inl over ↦
            rw (event, over)
              (
                datagram bytes ∷ [],
                parse_event (contents bytes) ∷ [],
                late bytes event (overtime w.clock over),
                first,
                refl,
              )
        | inr more ↦
            rw (event, more)
              (let (taken, events, drains, kept, queued) = rest c' on (intime w.clock more) refl in
                (
                  datagram bytes ∷ taken,
                  parse_event (contents bytes) ∷ events,
                  notice bytes event drains,
                  first ∙ ap (λ (ps : List Packet). datagram bytes ∷ ps) kept,
                  queued ∙ append_assoc c.events (parse_event (contents bytes) ∷ []) events,
                ))
      ]
      | inr reply ↦
          rw reply (datagram bytes ∷ [], [], answer bytes reply, first, sym (append-nil c.events))
    ]
  where
    overtime : (clock : ℕ) → leb (deadline - clock) 0 ≡ true → deadline ≤ clock
    overtime clock h = ground arith

    intime : (clock : ℕ) → leb (deadline - clock) 0 ≡ false → clock ≤ deadline
    intime clock h = ground arith

pub recv-inbox :
    (t : ℕ) (w : World) (inbox : List Arrival) → w.inbox ≡ inbox → recv t w ≡ recv_from t w inbox
unfolding recv
recv-inbox t w inbox same = ap (recv_from t w) same

-- Behind an arrival: a rest of the run that drains makes the run drain.
Drained-arrival :
    (n deadline t : ℕ) (a : Arrival) (inbox : List Arrival) (c : Client)
    → ((c' : Client)
        → connected c'.link.transport ≡ true
        → c'.link.world.clock ≤ deadline
        → inbox_of c' ≡ inbox
        → Drained deadline c' (request_loop n deadline c'))
    → connected c.link.transport ≡ true
    → c.link.world.clock + t ≡ deadline
    → inbox_of c ≡ a ∷ inbox
    → Drained deadline c (turn_on n deadline t c (recv_from t c.link.world (a ∷ inbox)))
Drained-arrival n deadline t a inbox c rest on now same =
    let clock = max_ℕ c.link.world.clock a.at in
    let w = record c.link.world { clock = clock; inbox = inbox } in
    elim (Bool-cases (leb a.at (c.link.world.clock + t))) [
      | inl timely ↦ rw timely (go a.packet refl w refl)
      | inr tardy ↦ rw tardy (
          Drained-timed_out n deadline t (c.link.world.clock + t) c
            (subst (NoneBy deadline) (sym same) (ground (arith, now))))
    ]
  where
    go :
        (p : Packet)
        → a.packet ≡ p
        → (w : World) → w.inbox ≡ inbox
        → Drained deadline c (turn_on n deadline t c (received p, w))
    go (datagram bytes) e w i =
        Drained-message n deadline t bytes w a c (λ c' on' early i'. rest c' on' early (i' ∙ i)) on
          (same ∙ ap (◌∷◌ a) (sym i)) e
    go failure e w i = (
      failure ∷ [],
      [],
      broken,
      ap packets same
          ∙ ap (λ (p : Packet). p ∷ packets inbox) e
          ∙ ap (λ (l : List Arrival). failure ∷ packets l) (sym i),
      sym (append-nil c.events),
    )

pub loop-Drained :
    (inbox : List Arrival) (n deadline : ℕ) (c : Client)
    → connected c.link.transport ≡ true
    → c.link.world.clock ≤ deadline
    → inbox_of c ≡ inbox
    → length inbox < n
    → Drained deadline c (request_loop n deadline c)
loop-Drained inbox zero deadline c on early same h = absurd (omega arith)
loop-Drained [] (suc n) deadline c on early same h =
    let t = remaining deadline c.link in
    rw (loop-turn n deadline c on, recv-inbox t c.link.world [] same)
      (Drained-timed_out n deadline t (c.link.world.clock + t) c
        (subst (NoneBy deadline) (sym same) tt))
loop-Drained (a ∷ inbox) (suc n) deadline c on early same h =
    let t = remaining deadline c.link in
    rw (loop-turn n deadline c on, recv-inbox t c.link.world (a ∷ inbox) same)
      (Drained-arrival n deadline t a inbox c
        (λ c' on' early' same'. loop-Drained inbox n deadline c' on' early' same' (omega arith)) on
        (omega arith) same)

-- Where the socket opens and the command goes out, `request` takes packets off the socket up to the
-- first that is no event, which it answers, and sets the events before it aside in order. Where it
-- raises, it raises a WpaCtrlError, each event that it took is set aside too, and it took a failure of
-- the socket last, or an event that left the clock at the deadline or later, or nothing of what it
-- leaves comes by the deadline.
pub request-Drained :
    (command : Text) (timeout : Option ℕ) (c c' : Client)
    → (on_link open_link >> on_link (send command)) c ≡ (ok tt, c')
    → (let deadline = c'.link.world.clock + timeout_or timeout c.timeout in
        Drained deadline c' (request command timeout c))
request-Drained command timeout c c' h =
    let deadline = c'.link.world.clock + timeout_or timeout c.timeout in
    let turns = suc (length (inbox_of c')) in
    let on = connected-sent command c c' h in
    subst (Drained deadline c') (sym (request-sent command timeout c c' h))
      (loop-Drained (inbox_of c') turns deadline c' on (omega arith) refl (omega arith))
