-- ===== src/Client/Stream/Handing.antt =====
-- `next_event` of wpa_ctrl/client.py hands out the first of the events that are to come, if any.
use wpa_ctrl_py.Base.{
  ℕ, zero, suc, ◌+◌, ◌≡◌, refl, sym, ap, ◌∙◌, inl, inr, Bool, true, false, List, [], ◌∷◌, ◌++◌,
  Option, none, some, leb, if◌then◌else◌, Bool-cases, length,
}
use wpa_ctrl_py.Result.{Result, ok, err}
use wpa_ctrl_py.Text.{Text}
use wpa_ctrl_py.Event.{Event, parse_event, is_event}
use wpa_ctrl_py.Transport.Exec.{Exec, after, continue, pure}
use wpa_ctrl_py.Transport.Socket as Socket
use wpa_ctrl_py.Transport.Socket.{open_link, send, receive, timeout_or, remaining}
use wpa_ctrl_py.Client.State.{Client, on_link}
use wpa_ctrl_py.Client.Events.{on_message, take_message, event_loop, await_event, next_event}
use wpa_ctrl_py.Client.Request.Drains.{inbox_of}
use wpa_ctrl_py.Client.Stream.{events_of, Conserves, quiet, Conserves-trans}
use wpa_ctrl_py.Client.Stream.Steps.{
  Receives, receive-Receives, Same, Same-Conserves, pending-Same, passed, missed,
}

-- The event in an answer.
abbrev pub handed : Result (Option Event) → List Event
handed (ok (some e)) = e ∷ []
handed (ok none) = []
handed (err e) = []

-- What a run has done, and what it has handed out.
abbrev pub Hands : Client → Result (Option Event) × Client → Type 0
Hands c run = Conserves (handed run.0) c run.1

-- The loop runs with no event aside.
found :
    (message : Text) (c d : Client)
    → c.events ≡ []
    → Receives (ok message) c d
    → is_event message ≡ true
    → Conserves (parse_event message ∷ []) c d
found message c d empty took event =
    let e = parse_event message in
    quiet took.daemon took.sent (
      ap (λ (events : List Event). e ∷ (events ++ events_of (inbox_of d))) (took.events ∙ empty)
      ∙ rw event at took.inbox
      ∙ ap (λ (events : List Event). events ++ events_of (inbox_of c)) (sym empty))

on_message-Hands :
    (deadline : ℕ) (message : Text) (again : Exec Client (Option Event)) (c d : Client)
    → c.events ≡ []
    → Receives (ok message) c d
    → Hands d (again d)
    → Hands c (on_message deadline message again d)
on_message-Hands deadline message again c d empty took rest = elim (Bool-cases (is_event message)) [
  | inl event ↦ rw event (found message c d empty took event)
  | inr stray ↦ rw stray (elim (Bool-cases (leb (remaining deadline d.link) 0)) [
    | inl over ↦ rw over (passed message c d took stray)
    | inr more ↦ rw more (Conserves-trans (passed message c d took stray) rest)
  ])
]

loop-Hands : (n deadline : ℕ) (c : Client) → c.events ≡ [] → Hands c (event_loop n deadline c)
unfolding event_loop
loop-Hands zero deadline c empty =
    Same-Conserves (record { events = refl; daemon = refl; sent = refl; inbox = refl })
loop-Hands (suc n) deadline c empty =
    let t = remaining deadline c.link in
    polled (Socket.pending t c.link).0 (after (on_link (Socket.pending t)) c) (pending-Same t c)
      (λ d none_aside. loop-Hands n deadline d none_aside)
  where
    took :
        (r : Result Text) (d e : Client)
        → d.events ≡ []
        → Receives r d e
        → Hands e (event_loop n deadline e)
        → Hands d (continue r (λ message. on_message deadline message (event_loop n deadline)) e)
    took (err x) d e none_aside got rest = missed x d e got
    took (ok message) d e none_aside got rest =
        on_message-Hands deadline message (event_loop n deadline) d e none_aside got rest

    taken :
        (d : Client)
        → d.events ≡ []
        → ((e : Client) → e.events ≡ [] → Hands e (event_loop n deadline e))
        → Hands d (take_message deadline (event_loop n deadline) d)
    taken d none_aside rest =
        let t = some (remaining deadline d.link) in
        let e = after (on_link (receive t)) d in
        let got = receive-Receives t d in
        took (receive t d.link).0 d e none_aside got (rest e (got.events ∙ none_aside))

    polled :
        (r : Result Bool) (d : Client)
        → Same c d
        → ((e : Client) → e.events ≡ [] → Hands e (event_loop n deadline e))
        → Hands c (
            continue r
              (λ ready. if ready then take_message deadline (event_loop n deadline) else pure none)
              d)
    polled (err x) d same rest = Same-Conserves same
    polled (ok true) d same rest =
        Conserves-trans (Same-Conserves same) (taken d (same.events ∙ empty) rest)
    polled (ok false) d same rest = Same-Conserves same

pub next_event-Hands : (timeout : ℕ) (c : Client) → Hands c (next_event timeout c)
unfolding next_event
next_event-Hands timeout c = go c.events refl
  where
    go :
        (events : List Event)
        → c.events ≡ events
        → (let run : Result (Option Event) × Client = elim events [
          | [] ↦ await_event (c.link.world.clock + timeout) c
          | e ∷ rest ↦ (ok (some e), record c { events = rest })
        ] in
            Hands c run)
    go [] none_aside =
        loop-Hands (suc (length (inbox_of c))) (c.link.world.clock + timeout) c none_aside
    go (e ∷ rest) same =
        quiet refl refl (ap (λ (events : List Event). events ++ events_of (inbox_of c)) (sym same))
