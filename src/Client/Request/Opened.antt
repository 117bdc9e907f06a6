-- ===== src/Client/Request/Opened.antt =====
-- A request of wpa_ctrl/client.py on a client that has been opened for it.
use wpa_ctrl_py.Base.{
  ℕ, ◌+◌, ◌≡◌, refl, sym, ap, ◌∙◌, inl, inr, Bool, true, false, Option, none, some, Bool-cases,
}
use wpa_ctrl_py.Result.{Result, Error, ok, err, err-not-ok}
use wpa_ctrl_py.Text.{Text}
use wpa_ctrl_py.Transport.World.{World, bind_file}
use wpa_ctrl_py.Transport.Exec.{◌>>◌, Exec, outcome, after, continue}
use wpa_ctrl_py.Transport.Socket.{
  Transport, Link, address_of, connected, own_path, connect, unlink, open_link, send, timeout_or,
}
use wpa_ctrl_py.Transport.Socket.{is_encodable, path_error, opening, bind_on_disk}
use wpa_ctrl_py.Transport.Socket.Lifecycle.{open_socket-opening}
use wpa_ctrl_py.Client.State.{Client, on_link, open_client}
use wpa_ctrl_py.Client.Request.{request, await_reply}

connect-connected :
    (t : Transport) (own : Option Text) (bound : Option World) (w : World)
    → (connect t own bound w).0 ≡ ok tt
    → connected (connect t own bound w).1.transport ≡ true
connect-connected t own none w h = absurd (err-not-ok h)
connect-connected t own (some w') w h = elim (Bool-cases (is_encodable (address_of t.path))) [
  | inl spelled ↦ elim (Bool-cases w'.can_connect) [
    | inl went ↦ rw (spelled, went) refl
    | inr refused ↦ absurd (err-not-ok (rw (spelled, refused) at h))
  ]
  | inr unspelled ↦ absurd (err-not-ok (rw unspelled at h))
]

bind_on_disk-connected :
    (fault : Option Error) (l : Link)
    → (bind_on_disk fault l).0 ≡ ok tt
    → connected (bind_on_disk fault l).1.transport ≡ true
bind_on_disk-connected (some e) l h = absurd (err-not-ok h)
bind_on_disk-connected none l h =
    let path = own_path l.transport in
    let cleared = unlink (some path) l.world in
    connect-connected l.transport (some path) (bind_file path cleared) cleared h

opening-connected :
    (created abstract : Bool) (l : Link)
    → (opening created abstract l).0 ≡ ok tt
    → connected (opening created abstract l).1.transport ≡ true
opening-connected false abstract l h = absurd (err-not-ok h)
opening-connected true true l h = connect-connected l.transport none (some l.world) l.world h
opening-connected true false l h = bind_on_disk-connected (path_error (own_path l.transport)) l h

open_link-connected :
    (l : Link) → (open_link l).0 ≡ ok tt → connected (open_link l).1.transport ≡ true
unfolding open_link
open_link-connected l h = elim (Bool-cases (connected l.transport)) [
  | inl on ↦ rw on on
  | inr off ↦
      rw (off, open_socket-opening l)
        (opening-connected l.world.can_create l.world.has_abstract l
          (rw (off, open_socket-opening l) at h))
]

connected-open : (l : Link) → connected l.transport ≡ true → open_link l ≡ (ok tt, l)
unfolding open_link
connected-open l on = rw on refl

-- Opened beforehand, it does the same.
pub request-opened :
    (text : Text) (timeout : Option ℕ) (c : Client)
    → (open_link c.link).0 ≡ ok tt
    → request text timeout (after open_client c) ≡ request text timeout c
unfolding request
request-opened text timeout c h =
    let l' = (open_link c.link).1 in
    let run =
      connected-open l' (open_link-connected c.link h)
      ∙ ap (λ (r : Result (Unit {0})). (r, l')) (sym h) in
    ap
      (λ (run : Result (Unit {0}) × Link).
        continue run.0 (λ _. on_link (send text) >> wait) (record c { link = run.1 }))
      run
  where
    wait : Exec Client Text
    wait d = await_reply (d.link.world.clock + timeout_or timeout c.timeout) d

-- Where it does not open, it raises what opening raises.
pub request-shut :
    (text : Text) (timeout : Option ℕ) (c : Client) (e : Error)
    → (open_link c.link).0 ≡ err e
    → outcome (request text timeout) c ≡ err e
unfolding request open_link
request-shut text timeout c e h = rw h refl

connect-refused :
    (t : Transport) (own : Option Text) (bound : Option World) (w : World) (e : Error)
    → (connect t own bound w).0 ≡ err e
    → (connect t own bound w).1.transport ≡ t
connect-refused t own none w e h = refl
connect-refused t own (some w') w e h = elim (Bool-cases (is_encodable (address_of t.path))) [
  | inl spelled ↦ elim (Bool-cases w'.can_connect) [
    | inl went ↦ absurd (err-not-ok (sym (rw (spelled, went) at h)))
    | inr refused ↦ rw (spelled, refused) refl
  ]
  | inr unspelled ↦ rw unspelled refl
]

bind_on_disk-refused :
    (fault : Option Error) (l : Link) (e : Error)
    → (bind_on_disk fault l).0 ≡ err e
    → (bind_on_disk fault l).1.transport ≡ l.transport
bind_on_disk-refused (some x) l e h = refl
bind_on_disk-refused none l e h =
    let path = own_path l.transport in
    let cleared = unlink (some path) l.world in
    connect-refused l.transport (some path) (bind_file path cleared) cleared e h

opening-refused :
    (created abstract : Bool) (l : Link) (e : Error)
    → (opening created abstract l).0 ≡ err e
    → (opening created abstract l).1.transport ≡ l.transport
opening-refused false abstract l e h = refl
opening-refused true true l e h = connect-refused l.transport none (some l.world) l.world e h
opening-refused true false l e h = bind_on_disk-refused (path_error (own_path l.transport)) l e h

-- Opening that fails leaves the transport as it is, without a socket.
pub open_link-refused :
    (l : Link) (e : Error)
    → (open_link l).0 ≡ err e
    → ((open_link l).1.transport ≡ l.transport) × (connected l.transport ≡ false)
unfolding open_link
open_link-refused l e h = elim (Bool-cases (connected l.transport)) [
  | inl on ↦ absurd (err-not-ok (sym (rw on at h)))
  | inr off ↦ (
    rw (off, open_socket-opening l)
        (opening-refused l.world.can_create l.world.has_abstract l e
          (rw (off, open_socket-opening l) at h)),
    off,
  )
]
