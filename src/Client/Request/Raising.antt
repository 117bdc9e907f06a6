-- ===== src/Client/Request/Raising.antt =====
-- Which exceptions a request of wpa_ctrl/client.py raises.
use wpa_ctrl_py.Base.{
  List, ◌≤◌, arith, ◌||◌, ℕ, suc, ◌+◌, ◌==◌, ◌≡◌, refl, inl, inr, Bool, true, false, Option, none,
  some, length, Bool-cases, Option-cases,
}
use wpa_ctrl_py.Result.{Result, ok, err, is_wpa_error, Error}
use wpa_ctrl_py.Text.{Text, Bytes}
use wpa_ctrl_py.Text.Utf8.{encode}
use wpa_ctrl_py.Transport.World.{
  World, Received, data_in, failed, timed_out, send_data, bind_file, recv,
}
use wpa_ctrl_py.Transport.Exec.{◌>>◌, Exec, after, continue}
use wpa_ctrl_py.Transport.Socket.{
  Transport, Link, address_of, connected, own_path, connect, unlink, open_link, send, receive,
  received_text, require_socket, timeout_or,
}
use wpa_ctrl_py.Transport.Socket.{is_encodable, path_error, opening, bind_on_disk}
use wpa_ctrl_py.Transport.Socket.Lifecycle.{is_path, is_none, open_socket-opening}
use wpa_ctrl_py.Client.State.{Client, on_link}
use wpa_ctrl_py.Client.Request.Sent.{connected-sent}
use wpa_ctrl_py.Client.Request.Drains.{
  Drains, silent, broken, answer, late, notice, inbox_of, loop-Drained,
}
use wpa_ctrl_py.Transport.World.{Arrival, Packet}
use wpa_ctrl_py.Event.{Event}
use wpa_ctrl_py.Client.Request.{request, await_reply}

-- The outcome is a value or a WpaCtrlError.
abbrev pub Tame : {A : Type 0} → Result A → Type 0
Tame (ok a) = Unit
Tame (err e) = is_wpa_error e ≡ true

continue-Tame :
    {S A B : Type 0} (r : Result A) (next : A → Exec S B) (s : S)
    → Tame r
    → ((a : A) → r ≡ ok a → Tame (next a s).0)
    → Tame (continue r next s).0
continue-Tame (ok a) next s first rest = rest a refl
continue-Tame (err e) next s first rest = first

-- What a connection needs so that opening it raises nothing but a WpaCtrlError: the system gives a
-- socket, and the paths are such as the system takes.
pub record Opens (l : Link) : Type 0 where
  pub created : l.world.can_create ≡ true
  pub spelled : is_encodable (address_of l.transport.path) ≡ true
  pub own : l.world.has_abstract || is_path (own_path l.transport) ≡ true

connect-Tame :
    (t : Transport) (own : Option Text) (bound : Option World) (w : World)
    → is_encodable (address_of t.path) ≡ true
    → Tame (connect t own bound w).0
connect-Tame t own none w spelled = refl
connect-Tame t own (some w') w spelled = elim (Bool-cases w'.can_connect) [
  | inl went ↦ rw (spelled, went) tt
  | inr refused ↦ rw (spelled, refused) refl
]

bind_on_disk-Tame :
    (fault : Option Error) (l : Link)
    → is_encodable (address_of l.transport.path) ≡ true
    → is_none fault ≡ true
    → Tame (bind_on_disk fault l).0
bind_on_disk-Tame (some e) l spelled h = cc
bind_on_disk-Tame none l spelled h =
    let path = own_path l.transport in
    let cleared = unlink (some path) l.world in
    connect-Tame l.transport (some path) (bind_file path cleared) cleared spelled

opening-Tame :
    (created abstract : Bool) (l : Link)
    → created ≡ true
    → is_encodable (address_of l.transport.path) ≡ true
    → abstract || is_path (own_path l.transport) ≡ true
    → Tame (opening created abstract l).0
opening-Tame false abstract l h spelled own = cc
opening-Tame true true l h spelled own =
    connect-Tame l.transport none (some l.world) l.world spelled
opening-Tame true false l h spelled own =
    bind_on_disk-Tame (path_error (own_path l.transport)) l spelled own

open_link-Tame : (l : Link) → Opens l → Tame (open_link l).0
unfolding open_link
open_link-Tame l opens = elim (Bool-cases (connected l.transport)) [
  | inl on ↦ rw on tt
  | inr off ↦
      rw (off, open_socket-opening l)
        (opening-Tame l.world.can_create l.world.has_abstract l opens.created opens.spelled
          opens.own)
]

send-Tame : (text : Text) (bytes : Bytes) (l : Link) → encode text ≡ ok bytes → Tame (send text l).0
unfolding send require_socket
send-Tame text bytes l encoded = elim (Bool-cases (connected l.transport)) [
  | inl on ↦ elim (Option-cases (send_data bytes l.world)) [
    | inl stuck ↦ rw (on, encoded, stuck) refl
    | inr (w, went) ↦ rw (on, encoded, went) tt
  ]
  | inr off ↦ rw off refl
]

received_text-Tame : (timeout : ℕ) (r : Received) → Tame (received_text timeout r)
received_text-Tame timeout (data_in bytes) = tt
received_text-Tame timeout failed = refl
received_text-Tame timeout timed_out = elim (Bool-cases (timeout == 0)) [
  | inl zero_wait ↦ rw zero_wait refl
  | inr wait ↦ rw wait refl
]

receive-Tame : (timeout : Option ℕ) (l : Link) → Tame (receive timeout l).0
unfolding receive require_socket
receive-Tame timeout l = elim (Bool-cases (connected l.transport)) [
  | inl on ↦
      let limit = timeout_or timeout l.transport.timeout in
      rw on (received_text-Tame limit (recv limit l.world).0)
  | inr off ↦ rw off refl
]

Drains-Tame :
    (deadline now : ℕ) (left : List Arrival) (r : Result Text) (taken : List Packet)
    (events : List Event)
    → Drains deadline now left r taken events
    → Tame r
Drains-Tame deadline now left r taken events (silent e tame quiet) = tame
Drains-Tame deadline now left r taken events broken = refl
Drains-Tame deadline now left r taken events (answer bytes reply) = tt
Drains-Tame deadline now left r taken events (late bytes event over) = refl
Drains-Tame deadline now left r taken events
      (notice bytes {taken = taken'} {events = events'} event drains) =
    Drains-Tame deadline now left r taken' events' drains

-- With a turn for each arrival and one more, the loop is never out of turns.
loop-Tame :
    (deadline : ℕ) (c : Client)
    → connected c.link.transport ≡ true
    → c.link.world.clock ≤ deadline
    → Tame (await_reply deadline c).0
loop-Tame deadline c on early =
    let run = await_reply deadline c in
    let (taken, events, drains, kept, queued) =
      loop-Drained (inbox_of c) (suc (length (inbox_of c))) deadline c on early refl
        (omega arith) in
    Drains-Tame deadline run.1.link.world.clock (inbox_of run.1) run.0 taken events drains

-- Where the socket can be created and the paths and the text can be encoded, a request answers or
-- raises a WpaCtrlError, whatever else of opening, sending and receiving fails.
pub request-Tame :
    (text : Text) (bytes : Bytes) (timeout : Option ℕ) (c : Client)
    → Opens c.link
    → encode text ≡ ok bytes
    → Tame (request text timeout c).0
unfolding request
request-Tame text bytes timeout c opens encoded =
    let opened = after (on_link open_link) c in
    let gone = after (on_link (send text)) opened in
    continue-Tame (open_link c.link).0 (λ _. on_link (send text) >> wait) opened
      (open_link-Tame c.link opens)
      λ u e.
        continue-Tame (send text opened.link).0 (λ _. wait) gone
          (send-Tame text bytes opened.link encoded)
          λ v e'.
            loop-Tame (gone.link.world.clock + limit) gone
              (connected-sent text c gone (rw (e, e') refl)) (omega arith)
  where
    limit : ℕ
    limit = timeout_or timeout c.timeout

    wait : Exec Client Text
    wait d = await_reply (d.link.world.clock + limit) d
