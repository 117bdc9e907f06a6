-- ===== src/Client/Stream/Steps.antt =====
-- What the steps of wpa_ctrl/client.py do to the events that are to come: opening, sending,
-- receiving and polling.
use wpa_ctrl_py.Base.{
  ℕ, ◌+◌, ◌==◌, ◌≡◌, refl, sym, ap, ◌∙◌, inl, inr, Bool, true, false, List, [], ◌∷◌, ◌++◌, map,
  Option, none, some, leb, if◌then◌else◌, Bool-cases, Option-cases, append-nil, append_assoc,
  some-injective,
}
use mathlib.Core.Path.{subst}
use wpa_ctrl_py.Result.{Error, Result, Result-cases, ok, err, connection_error}
use wpa_ctrl_py.Text.{Text, Bytes}
use wpa_ctrl_py.Text.Utf8.{encode}
use wpa_ctrl_py.Event.{Event, is_event}
use wpa_ctrl_py.Transport.World.{
  World, Arrival, Packet, datagram, failure, Received, later, send_data, received, recv, recv_from,
  select_ready, select_on,
}
use wpa_ctrl_py.Transport.Exec.{after}
use wpa_ctrl_py.Transport.Socket as Socket
use wpa_ctrl_py.Transport.Socket.{
  Link, connected, open_link, send, receive, received_text, require_socket, timeout_or,
}
use wpa_ctrl_py.Transport.Socket.Ignoring.{open_link-ignores}
use wpa_ctrl_py.Client.State.{Client, on_link}
use wpa_ctrl_py.Client.Request.Drains.{inbox_of}
use wpa_ctrl_py.Client.Stream.{
  noted, noted_in, events_of, events_of-append, events_of-later, Conserves, quiet,
}

abbrev pub noted_from : Result Text → List Event
noted_from (ok text) = noted text
noted_from (err e) = []

-- A step that leaves what stands aside, and takes the event of its message off the socket.
pub record Receives (r : Result Text) (c d : Client) : Type 0 where
  pub events : d.events ≡ c.events
  pub daemon : d.link.world.daemon ≡ c.link.world.daemon
  pub sent : d.link.world.sent ≡ c.link.world.sent
  pub inbox : noted_from r ++ events_of (inbox_of d) ≡ events_of (inbox_of c)

abbrev Takes : ℕ → World → Received × World → Type 0
Takes limit w run =
    (run.1.daemon ≡ w.daemon)
    × (run.1.sent ≡ w.sent)
    × (noted_from (received_text limit run.0) ++ events_of run.1.inbox ≡ events_of w.inbox)

received-noted :
    (limit : ℕ) (p : Packet) → noted_from (received_text limit (received p)) ≡ noted_in p
received-noted limit (datagram bytes) = refl
received-noted limit failure = refl

none-noted : (limit : ℕ) → noted_from (received_text limit Received.timed_out) ≡ []
none-noted limit = elim (Bool-cases (limit == 0)) [ inl e ↦ rw e refl | inr e ↦ rw e refl ]

recv-Takes : (limit : ℕ) (w : World) → Takes limit w (recv limit w)
unfolding recv
recv-Takes limit w = go w.inbox refl
  where
    waited :
        noted_from (received_text limit Received.timed_out) ++ events_of w.inbox ≡ events_of w.inbox
    waited = ap (λ (front : List Event). front ++ events_of w.inbox) (none-noted limit)

    go : (inbox : List Arrival) → w.inbox ≡ inbox → Takes limit w (recv_from limit w inbox)
    go [] same = (refl, refl, waited)
    go (a ∷ rest) same = elim (Bool-cases (leb a.at (w.clock + limit))) [
      | inl timely ↦ rw timely (
        refl,
        refl,
        ap (λ (front : List Event). front ++ events_of rest) (received-noted limit a.packet)
            ∙ ap events_of (sym same),
      )
      | inr tardy ↦ rw tardy (refl, refl, waited)
    ]

pub receive-Receives :
    (timeout : Option ℕ) (c : Client)
    → Receives (receive timeout c.link).0 c (after (on_link (receive timeout)) c)
unfolding receive require_socket
receive-Receives timeout c = elim (Bool-cases (connected c.link.transport)) [
  | inl on ↦
      let (daemon, sent, inbox) =
        recv-Takes (timeout_or timeout c.link.transport.timeout) c.link.world in
      rw on (record { events = refl; daemon = daemon; sent = sent; inbox = inbox })
  | inr off ↦ rw off (record { events = refl; daemon = refl; sent = refl; inbox = refl })
]

-- The message is no event.
pub passed :
    (message : Text) (c d : Client)
    → Receives (ok message) c d
    → is_event message ≡ false
    → Conserves [] c d
passed message c d took other = quiet took.daemon took.sent (
    ap (λ (events : List Event). events ++ events_of (inbox_of d)) took.events
    ∙ ap (λ (events : List Event). c.events ++ events) (rw other at took.inbox))

-- There is no message.
pub missed : (e : Error) (c d : Client) → Receives (err e) c d → Conserves [] c d
missed e c d took = quiet took.daemon took.sent (
    ap (λ (events : List Event). events ++ events_of (inbox_of d)) took.events
    ∙ ap (λ (events : List Event). c.events ++ events) took.inbox)

-- A step that leaves what stands aside and what is on the socket.
pub record Same (c d : Client) : Type 0 where
  pub events : d.events ≡ c.events
  pub daemon : d.link.world.daemon ≡ c.link.world.daemon
  pub sent : d.link.world.sent ≡ c.link.world.sent
  pub inbox : inbox_of d ≡ inbox_of c

pub Same-Conserves : {c d : Client} → Same c d → Conserves [] c d
Same-Conserves {c} {d} same = quiet same.daemon same.sent (
    ap (λ (events : List Event). events ++ events_of (inbox_of d)) same.events
    ∙ ap (λ (inbox : List Arrival). c.events ++ events_of inbox) same.inbox)

pub open-Same : (c : Client) → Same c (after (on_link open_link) c)
open-Same c = record {
  events = refl;
  daemon = open_link-ignores (λ w. w.daemon) (λ w files. refl) c.link;
  sent = open_link-ignores (λ w. w.sent) (λ w files. refl) c.link;
  inbox = open_link-ignores (λ w. w.inbox) (λ w files. refl) c.link;
}

SameWorld : World → World → Type 0
SameWorld w w' = (w'.daemon ≡ w.daemon) × (w'.sent ≡ w.sent) × (w'.inbox ≡ w.inbox)

select-SameWorld : (timeout : ℕ) (w : World) → SameWorld w (select_ready timeout w).1
unfolding select_ready SameWorld
select-SameWorld timeout w = go w.inbox
  where
    go : (inbox : List Arrival) → SameWorld w (select_on timeout w inbox).1
    go [] = (refl, refl, refl)
    go (a ∷ inbox) = elim (Bool-cases (leb a.at (w.clock + timeout))) [
      | inl timely ↦ rw timely (refl, refl, refl)
      | inr tardy ↦ rw tardy (refl, refl, refl)
    ]

pub pending-Same : (timeout : ℕ) (c : Client) → Same c (after (on_link (Socket.pending timeout)) c)
unfolding Socket.pending require_socket SameWorld
pending-Same timeout c = elim (Bool-cases (connected c.link.transport)) [
  | inl on ↦ rw on (polled c.link.world.can_select)
  | inr off ↦ rw off still
]
  where
    still : Same c c
    still = record { events = refl; daemon = refl; sent = refl; inbox = refl }

    polled :
        (can : Bool)
        → (let run : Result Bool × Link =
              let (ready, w) = select_ready timeout c.link.world in
              if can
              then (ok ready, record c.link { world = w })
              else (err connection_error, c.link) in
            Same c (record c { link = run.1 }))
    polled true =
        let (daemon, sent, inbox) = select-SameWorld timeout c.link.world in
        record { events = refl; daemon = daemon; sent = sent; inbox = inbox }
    polled false = still

-- A command that goes out brings the events of the daemon's answer behind those on the socket.
went-Conserves :
    (bytes : Bytes) (w : World) (c : Client)
    → send_data bytes c.link.world ≡ some w
    → Conserves [] c (record c { link = record c.link { world = w } })
unfolding send_data
went-Conserves bytes w c h = go c.link.world.can_send h
  where
    all : List Bytes
    all = c.link.world.sent ++ bytes ∷ []

    answer : List Arrival
    answer = c.link.world.daemon all

    queued : World
    queued = record c.link.world {
      sent = all;
      inbox = inbox_of c ++ map (later c.link.world.clock) answer;
    }

    now : ℕ
    now = c.link.world.clock

    gone : Conserves [] c (record c { link = record c.link { world = queued } })
    gone = record {
      commands = bytes ∷ [];
      daemon = refl;
      sent = refl;
      law =
          ap (λ (events : List Event). c.events ++ events)
            (events_of-append (inbox_of c) (map (later now) answer)
              ∙ ap (λ (events : List Event). events_of (inbox_of c) ++ events)
                  (events_of-later now answer ∙ sym (append-nil (events_of answer))))
          ∙ sym (append_assoc c.events (events_of (inbox_of c)) (events_of answer ++ []));
    }

    go :
        (can : Bool)
        → (if can then some queued else none) ≡ some w
        → Conserves [] c (record c { link = record c.link { world = w } })
    go true e =
        subst (λ (v : World). Conserves [] c (record c { link = record c.link { world = v } }))
          (some-injective e) gone
    go false e = cc

pub send-Conserves : (text : Text) (c : Client) → Conserves [] c (after (on_link (send text)) c)
unfolding send require_socket
send-Conserves text c =
    let still : Conserves [] c c =
      Same-Conserves (record { events = refl; daemon = refl; sent = refl; inbox = refl }) in
    elim (Bool-cases (connected c.link.transport)) [
      | inl on ↦ elim (Result-cases (encode text)) [
        | inl (bytes, fits) ↦ elim (Option-cases (send_data bytes c.link.world)) [
          | inl stuck ↦ rw (on, fits, stuck) still
          | inr (w, went) ↦ rw (on, fits, went) (went-Conserves bytes w c went)
        ]
        | inr (x, bad) ↦ rw (on, bad) still
      ]
      | inr off ↦ rw off still
    ]
