-- ===== src/Client/Events.antt =====
-- Unsolicited events, in wpa_ctrl/client.py: `pending` and `next_event`.
pub mod Skipping
pub mod Order
use wpa_ctrl_py.Base.{
  ℕ, zero, suc, ◌+◌, Bool, true, false, not, List, [], ◌∷◌, ◌++◌, Option, none, some, leb,
  if◌then◌else◌, length, is_empty,
}
use wpa_ctrl_py.Result.{endless, Result, ok, err}
use wpa_ctrl_py.Text.{Text}
use wpa_ctrl_py.Event.{Event, parse_event, is_event}
use wpa_ctrl_py.Transport.Exec.{raise, Exec, ◌>>=◌, ◌>>◌, pure}
use wpa_ctrl_py.Transport.Socket as Socket
use wpa_ctrl_py.Transport.Socket.{receive, remaining}
use wpa_ctrl_py.Client.State.{Client, on_link}

-- The queue first, then the socket.
unfoldable pub pending_event : ℕ → Exec Client Bool
pending_event timeout c =
    if is_empty c.events then on_link (Socket.pending timeout) c else (ok true, c)

-- The body of the loop once a message is there.
abbrev pub on_message : ℕ → Text → Exec Client (Option Event) → Exec Client (Option Event)
on_message deadline message again c =
    let (r, c') = again c in
    if is_event message
    then (ok (some (parse_event message)), c)
    else if leb (remaining deadline c.link) 0
    then (ok none, c)
    else (r, c')

abbrev pub take_message : ℕ → Exec Client (Option Event) → Exec Client (Option Event)
take_message deadline again = do
  message ← on_link (λ l. receive (some (remaining deadline l)) l)
  on_message deadline message again

-- The loop of `next_event`, on fuel: each turn takes one arrival. Out of fuel it would go on for ever.
unfoldable pub event_loop : ℕ → ℕ → Exec Client (Option Event)
event_loop zero deadline = raise endless
event_loop (suc fuel) deadline = do
  ready ← on_link (λ l. Socket.pending (remaining deadline l) l)
  if ready then take_message deadline (event_loop fuel deadline) else pure none

abbrev pub await_event : ℕ → Exec Client (Option Event)
await_event deadline c = event_loop (suc (length c.link.world.inbox)) deadline c

unfoldable pub next_event : ℕ → Exec Client (Option Event)
next_event timeout c = elim c.events [
  | [] ↦ await_event (c.link.world.clock + timeout) c
  | e ∷ events ↦ (ok (some e), record c { events = events })
]
