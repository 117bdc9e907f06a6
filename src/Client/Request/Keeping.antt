-- ===== src/Client/Request/Keeping.antt =====
-- What `request` of wpa_ctrl/client.py keeps: a relation that each of its steps keeps holds between
-- the client before the request and after it.
use wpa_ctrl_py.Base.{
  ℕ, zero, suc, ◌+◌, Bool, true, false, not, if◌then◌else◌, Option, some, leb, length,
}
use wpa_ctrl_py.Result.{Result, ok, err, timeout_error}
use wpa_ctrl_py.Text.{Text, rstrip}
use wpa_ctrl_py.Event.{Event, is_newline, is_event, parse_event}
use wpa_ctrl_py.Transport.Exec.{◌>>◌, Exec, after, continue}
use wpa_ctrl_py.Transport.Socket.{receive, remaining, open_link, send, timeout_or}
use wpa_ctrl_py.Client.State.{Client, on_link}
use wpa_ctrl_py.Client.Request.{set_aside, on_reply, request_loop, await_reply, request}

pub record Keeping (R : Client → Client → Type 0) : Type 0 where
  pub stays : (c : Client) → R c c
  pub follows : {c d e : Client} → R c d → R d e → R c e
  pub receives : (timeout : Option ℕ) (c : Client) → R c (after (on_link (receive timeout)) c)
  pub sets_aside : (e : Event) (c : Client) → R c (set_aside e c)

module _ {R : Client → Client → Type 0} (keeping : Keeping R) where
  on_reply-keeps :
      (deadline : ℕ) (reply : Text) (again : Exec Client Text) (c : Client)
      → ((d : Client) → R d (after again d))
      → R c (after (on_reply deadline reply again) c)
  on_reply-keeps deadline reply again c rest =
      go (is_event reply) (leb (remaining deadline (set_aside (parse_event reply) c).link) 0)
    where
      go :
          (event over : Bool)
          → (let c' = set_aside (parse_event reply) c in
              let run : Result Text × Client =
                if not event
                then (ok (rstrip is_newline reply), c)
                else if over
                then (err timeout_error, c')
                else again c' in
              R c run.1)
      go true true = keeping.sets_aside (parse_event reply) c
      go true false =
          keeping.follows (keeping.sets_aside (parse_event reply) c)
            (rest (set_aside (parse_event reply) c))
      go false over = keeping.stays c

  pub loop-keeps : (n deadline : ℕ) (c : Client) → R c (after (request_loop n deadline) c)
  unfolding request_loop
  loop-keeps zero deadline c = keeping.stays c
  loop-keeps (suc n) deadline c =
      let t = some (remaining deadline c.link) in
      keeping.follows (keeping.receives t c)
        (go (receive t c.link).0 (after (on_link (receive t)) c) (λ d. loop-keeps n deadline d))
    where
      go :
          (r : Result Text) (c' : Client)
          → ((d : Client) → R d (after (request_loop n deadline) d))
          → R c' (continue r (λ reply. on_reply deadline reply (request_loop n deadline)) c').1
      go (err e) c' rest = keeping.stays c'
      go (ok reply) c' rest = on_reply-keeps deadline reply (request_loop n deadline) c' rest

-- With the two steps in front of the loop.
module _ {R : Client → Client → Type 0} (keeping : Keeping R)
    (opens : (c : Client) → R c (after (on_link open_link) c))
    (sends : (text : Text) (c : Client) → R c (after (on_link (send text)) c)) where
  pub request-keeps :
      (text : Text) (timeout : Option ℕ) (c : Client) → R c (after (request text timeout) c)
  unfolding request
  request-keeps text timeout c =
      keeping.follows (opens c) (go (open_link c.link).0 (after (on_link open_link) c))
    where
      limit : ℕ
      limit = timeout_or timeout c.timeout

      wait : Exec Client Text
      wait d = await_reply (d.link.world.clock + limit) d

      gone : (r : Result (Unit {0})) (d : Client) → R d (continue r (λ _. wait) d).1
      gone (err e) d = keeping.stays d
      gone (ok u) d =
          loop-keeps keeping (suc (length d.link.world.inbox)) (d.link.world.clock + limit) d

      go :
          (r : Result (Unit {0})) (d : Client)
          → R d (continue r (λ _. on_link (send text) >> wait) d).1
      go (err e) d = keeping.stays d
      go (ok u) d =
          keeping.follows (sends text d) (gone (send text d.link).0 (after (on_link (send text)) d))
