-- ===== src/Client/Stream.antt =====
-- The events that a client of wpa_ctrl/client.py still has to hand out, and where they come from.
pub mod Steps
pub mod Asking
pub mod Handing
pub mod History
use wpa_ctrl_py.Base.{
  ◌≡◌, refl, sym, ap, ◌∙◌, true, false, List, [], ◌∷◌, ◌++◌, map, append-nil, append_assoc,
  if◌then◌else◌, ℕ,
}
use wpa_ctrl_py.Text.{Text, Bytes}
use wpa_ctrl_py.Event.{Event, parse_event, is_event}
use wpa_ctrl_py.Transport.World.{Arrival, Packet, datagram, failure, later}
use wpa_ctrl_py.Client.State.{Client}
use wpa_ctrl_py.Client.Request.Drains.{contents, inbox_of}

-- The event in a message, if it is one.
abbrev pub noted : Text → List Event
noted text = if is_event text then parse_event text ∷ [] else []

abbrev pub noted_in : Packet → List Event
noted_in (datagram bytes) = noted (contents bytes)
noted_in failure = []

abbrev pub events_of : List Arrival → List Event
events_of [] = []
events_of (a ∷ inbox) = noted_in a.packet ++ events_of inbox

-- Those that stand aside, and then those on the socket.
abbrev pub stream : Client → List Event
stream c = c.events ++ events_of (inbox_of c)

-- The events that the daemon sends when these commands are put behind those sent before.
abbrev pub posted : (List Bytes → List Arrival) → List Bytes → List Bytes → List Event
posted daemon before [] = []
posted daemon before (command ∷ commands) =
    let sent = before ++ command ∷ [] in events_of (daemon sent) ++ posted daemon sent commands

pub events_of-append : (xs ys : List Arrival) → events_of (xs ++ ys) ≡ events_of xs ++ events_of ys
events_of-append [] ys = refl
events_of-append (a ∷ xs) ys =
    ap (λ (rest : List Event). noted_in a.packet ++ rest) (events_of-append xs ys)
    ∙ sym (append_assoc (noted_in a.packet) (events_of xs) (events_of ys))

pub events_of-later : (now : ℕ) (xs : List Arrival) → events_of (map (later now) xs) ≡ events_of xs
events_of-later now [] = refl
events_of-later now (a ∷ xs) =
    ap (λ (rest : List Event). noted_in a.packet ++ rest) (events_of-later now xs)

posted-append :
    (daemon : List Bytes → List Arrival) (before xs ys : List Bytes)
    → posted daemon before (xs ++ ys) ≡ posted daemon before xs ++ posted daemon (before ++ xs) ys
posted-append daemon before [] ys =
    ap (λ (sent : List Bytes). posted daemon sent ys) (sym (append-nil before))
posted-append daemon before (x ∷ xs) ys =
    let sent = before ++ x ∷ [] in
    ap (λ (rest : List Event). events_of (daemon sent) ++ rest) (posted-append daemon sent xs ys)
    ∙ ap
        (λ (all : List Bytes).
          events_of (daemon sent) ++ (posted daemon sent xs ++ posted daemon all ys))
        (append_assoc before (x ∷ []) xs)
    ∙ sym (
        append_assoc (events_of (daemon sent)) (posted daemon sent xs)
          (posted daemon (before ++ x ∷ xs) ys))

-- From the one state to the other some commands went out and some events were handed out: those,
-- and the events still to come, are the events that were to come and those that the daemon sent in
-- answer, in this order.
pub record Conserves (handed : List Event) (c d : Client) : Type 0 where
  pub commands : List Bytes
  pub daemon : d.link.world.daemon ≡ c.link.world.daemon
  pub sent : d.link.world.sent ≡ c.link.world.sent ++ commands
  pub law : handed ++ stream d ≡ stream c ++ posted c.link.world.daemon c.link.world.sent commands

-- Nothing goes out.
pub quiet :
    {handed : List Event} {c d : Client}
    → d.link.world.daemon ≡ c.link.world.daemon
    → d.link.world.sent ≡ c.link.world.sent
    → handed ++ stream d ≡ stream c
    → Conserves handed c d
quiet {handed} {c} {d} daemon sent law = record {
  commands = [];
  daemon = daemon;
  sent = sent ∙ sym (append-nil c.link.world.sent);
  law = law ∙ sym (append-nil (stream c));
}

pub Conserves-trans :
    {first second : List Event} {c d e : Client}
    → Conserves first c d
    → Conserves second d e
    → Conserves (first ++ second) c e
Conserves-trans {first} {second} {c} {d} {e} one two =
    let w = c.link.world in
    let after = posted d.link.world.daemon d.link.world.sent two.commands in
    record {
      commands = one.commands ++ two.commands;
      daemon = two.daemon ∙ one.daemon;
      sent =
          two.sent
          ∙ ap (λ (before : List Bytes). before ++ two.commands) one.sent
          ∙ append_assoc w.sent one.commands two.commands;
      law =
          append_assoc first second (stream e)
          ∙ ap (λ (rest : List Event). first ++ rest) two.law
          ∙ sym (append_assoc first (stream d) after)
          ∙ ap (λ (front : List Event). front ++ after) one.law
          ∙ append_assoc (stream c) (posted w.daemon w.sent one.commands) after
          ∙ ap (λ (rest : List Event). stream c ++ (posted w.daemon w.sent one.commands ++ rest))
              (ap
                  (λ (daemon : List Bytes → List Arrival).
                    posted daemon d.link.world.sent two.commands)
                  one.daemon
                ∙ ap (λ (sent : List Bytes). posted w.daemon sent two.commands) one.sent)
          ∙ ap (λ (rest : List Event). stream c ++ rest)
              (sym (posted-append w.daemon w.sent one.commands two.commands));
    }
