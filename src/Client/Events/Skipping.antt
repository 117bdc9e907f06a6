-- ===== src/Client/Events/Skipping.antt =====
-- When the loop of `next_event` finds an event on the socket, behind replies that nobody awaits.
use wpa_ctrl_py.Base.{
  ℕ, zero, suc, ◌+◌, ◌<◌, ◌≤◌, ◌≡◌, refl, ap, ◌∙◌, Bool, true, false, List, [], ◌∷◌, ◌++◌, map,
  Option, none, some, arith, length, length-append, leb, All, if◌then◌else◌,
}
use wpa_ctrl_py.Result.{Result, ok}
use wpa_ctrl_py.Text.{Text}
use wpa_ctrl_py.Event.{Event, parse_event, is_event}
use wpa_ctrl_py.Transport.World.{Arrival, max_ℕ}
use wpa_ctrl_py.Transport.Exec.{continue}
use wpa_ctrl_py.Transport.Socket as Socket
use wpa_ctrl_py.Transport.Socket.{Link, connected, remaining, receive}
use wpa_ctrl_py.Transport.Socket.Receiving.{picked, ready_link, pending-picked, receive-ready}
use wpa_ctrl_py.Client.State.{Client, with_world}
use wpa_ctrl_py.Client.Events.{pure, on_message, take_message, event_loop, next_event}
use wpa_ctrl_py.Client.Request.Drains.{inbox_of}
use wpa_ctrl_py.Client.Request.Waiting.{
  Message, arrival, said, clock_after, timely, le-max, not-over, length-map,
}

-- A message that is no event, and leaves time before the deadline.
abbrev pub IsStray : ℕ → Message → Type 0
IsStray deadline m = (is_event (said m) ≡ false) × (m.at < deadline)

-- The client once the first message has been received.
abbrev pub took : Client → Message → List Arrival → Client
took c m rest =
    with_world c (record c.link.world { clock = max_ℕ c.link.world.clock m.at; inbox = rest })

pending-message :
    (deadline : ℕ) (c : Client) (m : Message) (rest : List Arrival)
    → connected c.link.transport ≡ true
    → c.link.world.can_select ≡ true
    → c.link.world.clock ≤ deadline
    → m.at ≤ deadline
    → inbox_of c ≡ arrival m ∷ rest
    → Socket.pending (remaining deadline c.link) c.link ≡ (ok true, ready_link c.link m.at)
pending-message deadline c m rest on can early intime same =
    let t = remaining deadline c.link in
    pending-picked t c.link (arrival m) rest same on
    ∙ ap (λ (b : Bool). picked c.link m.at t b (leb m.at (c.link.world.clock + t))) can
    ∙ ap (λ (b : Bool). picked c.link m.at t true b)
        (timely c.link.world.clock deadline m.at early intime)

turn-message :
    (n deadline : ℕ) (c : Client) (m : Message) (rest : List Arrival)
    → connected c.link.transport ≡ true
    → c.link.world.can_select ≡ true
    → c.link.world.clock ≤ deadline
    → m.at ≤ deadline
    → inbox_of c ≡ arrival m ∷ rest
    → event_loop (suc n) deadline c
      ≡ on_message deadline (said m) (event_loop n deadline) (took c m rest)
unfolding event_loop
turn-message n deadline c m rest on can early intime same =
    let t = remaining deadline (ready_link c.link m.at) in
    let run : Result Bool × Link → Result (Option Event) × Client = λ r.
      continue r.0
        (λ ready. if ready then take_message deadline (event_loop n deadline) else pure none)
        (record c { link = r.1 }) in
    let run' : Result Text × Link → Result (Option Event) × Client = λ r.
      continue r.0 (λ message. on_message deadline message (event_loop n deadline))
        (record c { link = r.1 }) in
    ap run (pending-message deadline c m rest on can early intime same)
    ∙ ap run' (receive-ready t c.link (arrival m) m.bytes rest same refl on)

loop-found :
    (strays : List Message) (n deadline : ℕ) (c : Client) (m : Message) (rest : List Arrival)
    → connected c.link.transport ≡ true
    → c.link.world.can_select ≡ true
    → c.link.world.clock < deadline
    → inbox_of c ≡ map arrival strays ++ arrival m ∷ rest
    → All (IsStray deadline) strays
    → is_event (said m) ≡ true
    → m.at ≤ deadline
    → length strays < n
    → event_loop n deadline c ≡ (
      ok (some (parse_event (said m))),
      with_world c (record c.link.world {
        clock = max_ℕ (clock_after c.link.world.clock strays) m.at;
        inbox = rest;
      }),
    )
loop-found strays zero deadline c m rest on can early same all h intime fuel = absurd (omega arith)
loop-found [] (suc n) deadline c m rest on can early same all h intime fuel =
    turn-message n deadline c m rest on can (omega arith) intime same ∙ rw h refl
loop-found (s ∷ strays) (suc n) deadline c m rest on can early same all h intime fuel =
    let behind = map arrival strays ++ arrival m ∷ rest in
    let later =
      loop-found strays n deadline (took c s behind) m rest on can
        (le-max c.link.world.clock s.at deadline early all.0.1) refl all.1 h intime (omega arith) in
    turn-message n deadline c s behind on can (omega arith) (omega arith) same
    ∙ rw (all.0.0, not-over c.link.world.clock s.at deadline early all.0.1) later

-- On an open connection with no event set aside, `next_event` finds the event behind any number of
-- replies that nobody awaits, if the timeout is not 0, the replies leave time and it arrives by the
-- deadline; the replies are dropped, and what comes behind the event is left on the socket.
pub next_event-found :
    (timeout : ℕ) (c : Client) (strays : List Message) (m : Message) (rest : List Arrival)
    → c.events ≡ []
    → connected c.link.transport ≡ true
    → c.link.world.can_select ≡ true
    → 0 < timeout
    → inbox_of c ≡ map arrival strays ++ arrival m ∷ rest
    → All (IsStray (c.link.world.clock + timeout)) strays
    → is_event (said m) ≡ true
    → m.at ≤ c.link.world.clock + timeout
    → next_event timeout c ≡ (
      ok (some (parse_event (said m))),
      with_world c (record c.link.world {
        clock = max_ℕ (clock_after c.link.world.clock strays) m.at;
        inbox = rest;
      }),
    )
unfolding next_event
next_event-found timeout c strays m rest none_aside on can some_time same all h intime =
    let deadline = c.link.world.clock + timeout in
    let turns = suc (length (inbox_of c)) in
    let queue : List Event → Result (Option Event) × Client = λ events. elim events [
      | [] ↦ event_loop turns deadline c
      | e ∷ events ↦ (ok (some e), record c { events = events })
    ] in
    ap queue none_aside
    ∙ loop-found strays turns deadline c m rest on can (omega arith) same all h intime
        (enough (inbox_of c) same)
  where
    enough :
        (inbox : List Arrival)
        → inbox ≡ map arrival strays ++ arrival m ∷ rest
        → length strays < suc (length inbox)
    enough inbox e = rw (e, length-append, length-map) (omega arith)
