-- ===== src/Client/Request/Sent.antt =====
-- The commands of wpa_ctrl/client.py on their way out: behind a command that went out the connection
-- is open, and `request` is its loop.
use wpa_ctrl_py.Base.{
  Option-cases, ℕ, ◌+◌, ◌≡◌, refl, sym, ap, ◌∙◌, inl, inr, true, false, Option, Bool-cases,
}
use wpa_ctrl_py.Result.{err-not-ok, Result, Result-cases, ok, err, connection_error}
use wpa_ctrl_py.Text.{Text}
use wpa_ctrl_py.Text.Utf8.{encode}
use wpa_ctrl_py.Transport.World.{send_data}
use wpa_ctrl_py.Transport.Exec.{then-eq-ok, run-after, ◌>>◌}
use wpa_ctrl_py.Transport.Socket.{Link, open_link, send, connected, require_socket}
use wpa_ctrl_py.Client.State.{Client, on_link}
use wpa_ctrl_py.Client.Request.{timeout_or, request, await_reply}

pub transport-send : (command : Text) (l : Link) → (send command l).1.transport ≡ l.transport
unfolding send require_socket
transport-send command l = elim (Bool-cases (connected l.transport)) [
  | inl on ↦ elim (Result-cases (encode command)) [
    | inl (bytes, e) ↦ elim (Option-cases (send_data bytes l.world)) [
      | inl stuck ↦ rw (on, e, stuck) refl
      | inr (w, went) ↦ rw (on, e, went) refl
    ]
    | inr (x, e) ↦ rw (on, e) refl
  ]
  | inr off ↦ rw off refl
]

pub send-closed :
    (command : Text) (l : Link)
    → connected l.transport ≡ false
    → send command l ≡ (err connection_error, l)
unfolding send require_socket
send-closed command l off = rw off refl

connected-send :
    (command : Text) (l l' : Link) → send command l ≡ (ok tt, l') → connected l'.transport ≡ true
connected-send command l l' h = elim (Bool-cases (connected l.transport)) [
  | inl on ↦
      ap (λ (run : Result Unit × Link). connected run.1.transport) (sym h)
      ∙ ap connected (transport-send command l)
      ∙ on
  | inr off ↦
      absurd (
        err-not-ok (ap (λ (run : Result Unit × Link). run.0) (sym (send-closed command l off) ∙ h)))
]

pub connected-sent :
    (command : Text) (c c' : Client)
    → (on_link open_link >> on_link (send command)) c ≡ (ok tt, c')
    → connected c'.link.transport ≡ true
connected-sent command c c' h =
    let (d, opened, gone) = then-eq-ok (on_link open_link) (on_link (send command)) c c' tt h in
    let shrink : Result Unit × Client → Result Unit × Link = λ run. (run.0, run.1.link) in
    connected-send command d.link c'.link (ap shrink gone)

-- Behind the command, `request` is its loop.
pub request-sent :
    (command : Text) (timeout : Option ℕ) (c c' : Client)
    → (on_link open_link >> on_link (send command)) c ≡ (ok tt, c')
    → request command timeout c
      ≡ await_reply (c'.link.world.clock + timeout_or timeout c.timeout) c'
unfolding request
request-sent command timeout c c' h =
    let limit = timeout_or timeout c.timeout in
    let wait = λ (d : Client). await_reply (d.link.world.clock + limit) d in
    run-after (on_link open_link) (on_link (send command)) wait c c' h
