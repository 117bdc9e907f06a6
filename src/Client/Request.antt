-- ===== src/Client/Request.antt =====
-- Sending commands, in wpa_ctrl/client.py: `request`, `command`, `try_command`, and the methods that
-- change the state of the connection by one.
pub mod Sent
pub mod Drains
pub mod Waiting
pub mod Keeping
pub mod Files
pub mod Once
pub mod Raising
pub mod Opened
pub mod Attached
use wpa_ctrl_py.Base.{
  ℕ, zero, suc, ◌+◌, Bool, true, false, not, List, [], ◌∷◌, ◌++◌, Option, none, some, leb,
  if◌then◌else◌, length,
}
use wpa_ctrl_py.Result.{Result, ok, err, timeout_error, endless, command_failed}
use wpa_ctrl_py.Text.{Text, codes, text_eq, rstrip, strip}
use wpa_ctrl_py.Event.{Event, parse_event, is_event, is_newline}
use wpa_ctrl_py.Transport.Exec.{Exec, ◌>>=◌, ◌>>◌, pure, raise, modify, gets}
use wpa_ctrl_py.Transport.Socket.{open_link, send, receive, remaining, timeout_or}
use wpa_ctrl_py.Client.State.{Client, on_link}

abbrev pub reply_ok : Text
reply_ok = codes "OK"

abbrev pub reply_pong : Text
reply_pong = codes "PONG"

-- `self._events.append(event)`.
abbrev pub set_aside : Event → Client → Client
set_aside e c = record c { events = c.events ++ e ∷ [] }

-- The body of the loop once a message is there; `again` runs the loop on.
abbrev pub on_reply : ℕ → Text → Exec Client Text → Exec Client Text
on_reply deadline reply again c =
    let c' = set_aside (parse_event reply) c in
    let (r, c'') = again c' in
    if not (is_event reply)
    then (ok (rstrip is_newline reply), c)
    else if leb (remaining deadline c'.link) 0
    then (err timeout_error, c')
    else (r, c'')

-- The loop of `request`, on fuel: each turn takes one arrival. Out of fuel it would go on for ever.
unfoldable pub request_loop : ℕ → ℕ → Exec Client Text
request_loop zero deadline = raise endless
request_loop (suc fuel) deadline = do
  reply ← on_link (λ l. receive (some (remaining deadline l)) l)
  on_reply deadline reply (request_loop fuel deadline)

-- The loop with a turn for each arrival, and one to find that there is none.
abbrev pub await_reply : ℕ → Exec Client Text
await_reply deadline c = request_loop (suc (length c.link.world.inbox)) deadline c

unfoldable pub request : Text → Option ℕ → Exec Client Text
request command timeout = do
  limit ← gets (λ c. timeout_or timeout c.timeout)
  on_link open_link
  on_link (send command)
  now ← gets (λ c. c.link.world.clock)
  await_reply (now + limit)

unfoldable pub command : Text → Option ℕ → Exec Client (Unit {0})
command text timeout = do
  reply ← request text timeout
  if text_eq (strip reply) reply_ok then pure tt else raise (command_failed text reply)

unfoldable pub try_command : Text → Option ℕ → Exec Client Bool
try_command text timeout = do reply ← request text timeout; pure (text_eq (strip reply) reply_ok)

unfoldable pub attach : Exec Client (Unit {0})
attach = do command (codes "ATTACH") none; modify (λ c. record c { attached = true })

unfoldable pub detach : Exec Client (Unit {0})
detach = do command (codes "DETACH") none; modify (λ c. record c { attached = false })

unfoldable pub ping : Exec Client Bool
ping = do reply ← request (codes "PING") none; pure (text_eq (strip reply) reply_pong)
