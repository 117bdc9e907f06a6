-- ===== src/Client/Stream/Asking.antt =====
-- A request of wpa_ctrl/client.py neither loses events nor hands any out.
use wpa_ctrl_py.Base.{
  ℕ, zero, suc, ◌+◌, ◌≡◌, refl, ap, ◌∙◌, inl, inr, true, List, [], ◌∷◌, ◌++◌, Option, some, leb,
  Bool-cases, append_assoc, length,
}
use wpa_ctrl_py.Result.{Result, ok, err}
use wpa_ctrl_py.Text.{Text}
use wpa_ctrl_py.Event.{Event, parse_event, is_event}
use wpa_ctrl_py.Transport.Exec.{Exec, ◌>>◌, after, continue}
use wpa_ctrl_py.Transport.Socket.{open_link, send, receive, timeout_or, remaining}
use wpa_ctrl_py.Client.State.{Client, on_link}
use wpa_ctrl_py.Client.Request.{set_aside, on_reply, request_loop, await_reply, request}
use wpa_ctrl_py.Client.Request.Drains.{inbox_of}
use wpa_ctrl_py.Client.Stream.{events_of, Conserves, quiet, Conserves-trans}
use wpa_ctrl_py.Client.Stream.Steps.{
  Receives, receive-Receives, Same-Conserves, open-Same, send-Conserves, passed, missed,
}

-- The message is an event, which is set aside.
queued :
    (reply : Text) (c d : Client)
    → Receives (ok reply) c d
    → is_event reply ≡ true
    → Conserves [] c (set_aside (parse_event reply) d)
queued reply c d took event =
    let e = parse_event reply in
    let inbox = events_of (inbox_of d) in
    quiet took.daemon took.sent (
      append_assoc d.events (e ∷ []) inbox
      ∙ ap (λ (events : List Event). events ++ e ∷ inbox) took.events
      ∙ ap (λ (events : List Event). c.events ++ events) (rw event at took.inbox))

on_reply-Conserves :
    (deadline : ℕ) (reply : Text) (again : Exec Client Text) (c d : Client)
    → Receives (ok reply) c d
    → ((e : Client) → Conserves [] e (after again e))
    → Conserves [] c (after (on_reply deadline reply again) d)
on_reply-Conserves deadline reply again c d took rest =
    let d' = set_aside (parse_event reply) d in
    elim (Bool-cases (is_event reply)) [
      | inl event ↦
          rw (after, event)
            (elim (Bool-cases (leb (remaining deadline d'.link) 0)) [
              | inl over ↦ rw over (queued reply c d took event)
              | inr more ↦ rw more (Conserves-trans (queued reply c d took event) (rest d'))
            ])
      | inr answer ↦ rw (after, answer) (passed reply c d took answer)
    ]

loop-Conserves : (n deadline : ℕ) (c : Client) → Conserves [] c (after (request_loop n deadline) c)
unfolding request_loop
loop-Conserves zero deadline c =
    Same-Conserves (record { events = refl; daemon = refl; sent = refl; inbox = refl })
loop-Conserves (suc n) deadline c =
    let t = some (remaining deadline c.link) in
    go (receive t c.link).0 (after (on_link (receive t)) c) (receive-Receives t c)
      (loop-Conserves n deadline)
  where
    go :
        (r : Result Text) (d : Client)
        → Receives r c d
        → ((e : Client) → Conserves [] e (after (request_loop n deadline) e))
        → Conserves [] c
            (continue r (λ reply. on_reply deadline reply (request_loop n deadline)) d).1
    go (err e) d took rest = missed e c d took
    go (ok reply) d took rest =
        on_reply-Conserves deadline reply (request_loop n deadline) c d took rest

pub request-Conserves :
    (text : Text) (timeout : Option ℕ) (c : Client)
    → Conserves [] c (after (request text timeout) c)
unfolding request
request-Conserves text timeout c =
    opened (open_link c.link).0 (after (on_link open_link) c) (Same-Conserves (open-Same c))
  where
    limit : ℕ
    limit = timeout_or timeout c.timeout

    wait : Exec Client Text
    wait d = await_reply (d.link.world.clock + limit) d

    gone :
        (r : Result {0} (Unit {0})) (d : Client)
        → Conserves [] c d
        → Conserves [] c (continue r (λ _. wait) d).1
    gone (err e) d so_far = so_far
    gone (ok u) d so_far =
        Conserves-trans so_far
          (loop-Conserves (suc (length (inbox_of d))) (d.link.world.clock + limit) d)

    opened :
        (r : Result {0} (Unit {0})) (d : Client)
        → Conserves [] c d
        → Conserves [] c (continue r (λ _. on_link (send text) >> wait) d).1
    opened (err e) d so_far = so_far
    opened (ok u) d so_far =
        gone (send text d.link).0 (after (on_link (send text)) d)
          (Conserves-trans so_far (send-Conserves text d))
