-- ===== src/Client/Stream/History.antt =====
-- The events of a client of wpa_ctrl/client.py over its whole use.
use wpa_ctrl_py.Base.{
  ℕ, refl, sym, ◌++◌, Bool, true, false, List, [], Option, none, is_empty, if◌then◌else◌,
  append-nil,
}
use wpa_ctrl_py.Result.{Result, ok, err}
use mathlib.Core.Path.{subst}
use wpa_ctrl_py.Text.{Text, codes}
use wpa_ctrl_py.Event.{Event}
use wpa_ctrl_py.Transport.Exec.{after, outcome, continue, modify}
use wpa_ctrl_py.Transport.Socket as Socket
use wpa_ctrl_py.Client.State.{Client, on_link}
use wpa_ctrl_py.Client.Request.{request, command, attach, detach}
use wpa_ctrl_py.Client.Events.{next_event, pending_event}
use wpa_ctrl_py.Client.Commands.Accepted.{command-Judged}
use wpa_ctrl_py.Client.Stream.{Conserves, Conserves-trans}
use wpa_ctrl_py.Client.Stream.Steps.{Same-Conserves, pending-Same}
use wpa_ctrl_py.Client.Stream.Asking.{request-Conserves}
use wpa_ctrl_py.Client.Stream.Handing.{handed, next_event-Hands}

-- What a client may be used for between opening and closing, and the events that this hands out. A
-- method for a command is a request.
pub data Uses (c : Client) : Client → List Event → Type 0 where
  started : Uses c c []
  requested :
      (text : Text) (timeout : Option ℕ) {d : Client} {events : List Event}
      → Uses c d events
      → Uses c (after (request text timeout) d) events
  attached : {d : Client} {events : List Event} → Uses c d events → Uses c (after attach d) events
  detached : {d : Client} {events : List Event} → Uses c d events → Uses c (after detach d) events
  polled :
      (timeout : ℕ) {d : Client} {events : List Event}
      → Uses c d events
      → Uses c (after (pending_event timeout) d) events
  taken :
      (timeout : ℕ) {d : Client} {events : List Event}
      → Uses c d events
      → Uses c (after (next_event timeout) d) (events ++ handed (outcome (next_event timeout) d))

still : (c : Client) → Conserves [] c c
still c = Same-Conserves (record { events = refl; daemon = refl; sent = refl; inbox = refl })

pending-Conserves : (timeout : ℕ) (c : Client) → Conserves [] c (after (pending_event timeout) c)
unfolding pending_event
pending-Conserves timeout c = go (is_empty c.events)
  where
    go :
        (none_aside : Bool)
        → (let run : Result Bool × Client =
              if none_aside then on_link (Socket.pending timeout) c else (ok true, c) in
            Conserves [] c run.1)
    go true = Same-Conserves (pending-Same timeout c)
    go false = still c

command-Conserves : (text : Text) (c : Client) → Conserves [] c (after (command text none) c)
command-Conserves text c =
    let (judged, same, tried) = command-Judged text none c in
    subst (Conserves [] c) (sym same) (request-Conserves text none c)

-- The flag of the subscription is no event.
flagged :
    (text : Text) (flag : Bool) (c : Client)
    → Conserves [] c
        (continue
          (command text none c).0
          (λ _. modify (λ d. record d { attached = flag }))
          (command text none c).1).1
flagged text flag c = go (command text none c).0 (command text none c).1 (command-Conserves text c)
  where
    go :
        (r : Result {0} (Unit {0})) (d : Client)
        → Conserves [] c d
        → Conserves [] c (continue r (λ _. modify (λ d. record d { attached = flag })) d).1
    go (ok u) d kept = record {
      commands = kept.commands;
      daemon = kept.daemon;
      sent = kept.sent;
      law = kept.law;
    }
    go (err e) d kept = kept

attach-Conserves : (c : Client) → Conserves [] c (after attach c)
unfolding attach
attach-Conserves c = flagged (codes "ATTACH") true c

detach-Conserves : (c : Client) → Conserves [] c (after detach c)
unfolding detach
detach-Conserves c = flagged (codes "DETACH") false c

behind :
    {events : List Event} {c d e : Client}
    → Conserves events c d
    → Conserves [] d e
    → Conserves events c e
behind {events} {c} {d} {e} one two =
    subst (λ (all : List Event). Conserves all c e) (append-nil events) (Conserves-trans one two)

-- However requests, subscriptions, polls and calls of `next_event` follow on each other, and
-- whether they succeed or raise: the events that were handed out, those that stand aside and those
-- on the socket are, in this order, the events that were to come at the start and those that the
-- daemon sent in answer to the commands since. So none is lost, none comes twice, and none
-- overtakes another.
pub use-Conserves : (c d : Client) (events : List Event) → Uses c d events → Conserves events c d
use-Conserves c d events started = still c
use-Conserves c d events (requested text timeout {d = e} before) =
    behind (use-Conserves c e events before) (request-Conserves text timeout e)
use-Conserves c d events (attached {d = e} before) =
    behind (use-Conserves c e events before) (attach-Conserves e)
use-Conserves c d events (detached {d = e} before) =
    behind (use-Conserves c e events before) (detach-Conserves e)
use-Conserves c d events (polled timeout {d = e} before) =
    behind (use-Conserves c e events before) (pending-Conserves timeout e)
use-Conserves c d all (taken timeout {d = e} {events} before) =
    Conserves-trans (use-Conserves c e events before) (next_event-Hands timeout e)
