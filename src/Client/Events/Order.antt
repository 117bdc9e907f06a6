-- ===== src/Client/Events/Order.antt =====
-- The order of events across `request` and `next_event` of wpa_ctrl/client.py.
use wpa_ctrl_py.Base.{
  append-nil, ℕ, zero, suc, ◌+◌, ◌≤◌, ◌<◌, ◌≡◌, refl, sym, ap, ◌∙◌, false, List, [], ◌∷◌, ◌++◌, map,
  Option, some, length, All,
}
use wpa_ctrl_py.Result.{Result, ok}
use wpa_ctrl_py.Text.{Text}
use wpa_ctrl_py.Event.{Event, is_event}
use wpa_ctrl_py.Transport.World.{Arrival}
use wpa_ctrl_py.Transport.Exec.{Exec, ◌>>=◌, ◌>>◌, pure, after}
use wpa_ctrl_py.Transport.Socket.{open_link, send, timeout_or}
use wpa_ctrl_py.Client.State.{Client, on_link}
use wpa_ctrl_py.Client.Request.{request}
use wpa_ctrl_py.Client.Events.{next_event}
use wpa_ctrl_py.Client.Request.Drains.{inbox_of}
use wpa_ctrl_py.Client.Request.Waiting.{
  Message, arrival, said, IsNotice, noticed, answered, request-answered,
}

-- A caller that takes so many events.
abbrev pub take_events : ℕ → ℕ → Exec Client (List (Option Event))
take_events zero timeout = pure []
take_events (suc n) timeout = do
  e ← next_event timeout
  rest ← take_events n timeout
  pure (e ∷ rest)

abbrev pub with_events : Client → List Event → Client
with_events c events = record c { events = events }

-- The events that stand aside are taken in order, and the socket is left alone.
take_events-aside :
    (events more : List Event) (timeout : ℕ) (c : Client)
    → take_events (length events) timeout (with_events c (events ++ more))
      ≡ (ok (map (λ (e : Event). some e) events), with_events c more)
unfolding next_event
take_events-aside [] more timeout c = refl
take_events-aside (e ∷ events) more timeout c = rw (take_events-aside events more timeout c) refl

-- Behind a request that was answered, a caller takes the events that stood aside before, then those
-- that arrived while the reply was awaited, each of them once and in the order of arrival, without
-- touching the socket. The conditions are those of finding the reply: the timeout is not 0, the
-- events leave time, and the reply arrives by the deadline.
pub take_events-request :
    (command : Text) (timeout : Option ℕ) (wait : ℕ) (c c' : Client) (notices : List Message)
    (reply : Message) (rest : List Arrival)
    → (on_link open_link >> on_link (send command)) c ≡ (ok tt, c')
    → inbox_of c' ≡ map arrival notices ++ arrival reply ∷ rest
    → All (IsNotice (c'.link.world.clock + timeout_or timeout c.timeout)) notices
    → 0 < timeout_or timeout c.timeout
    → is_event (said reply) ≡ false
    → reply.at ≤ c'.link.world.clock + timeout_or timeout c.timeout
    → (let events = c'.events ++ noticed notices in
        take_events (length events) wait (after (request command timeout) c) ≡ (
          ok (map (λ (e : Event). some e) events),
          with_events (answered c' notices reply rest) [],
        ))
take_events-request command timeout wait c c' notices reply rest sent same all some_time h intime =
    let events = c'.events ++ noticed notices in
    let found =
      request-answered command timeout c c' notices reply rest sent same all some_time h intime in
    ap (λ (run : Result Text × Client). take_events (length events) wait run.1) found
    ∙ aside events (answered c' notices reply rest) refl
  where
    aside :
        (events : List Event) (d : Client)
        → d.events ≡ events
        → take_events (length events) wait d
          ≡ (ok (map (λ (e : Event). some e) events), with_events d [])
    aside events d e =
        ap (λ (es : List Event). take_events (length events) wait (with_events d es))
          (e ∙ sym (append-nil events))
        ∙ take_events-aside events [] wait d
