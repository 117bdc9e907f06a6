-- ===== src/Client/Request/Files.antt =====
-- The files that a request of wpa_ctrl/client.py leaves.
use wpa_ctrl_py.Base.{
  [], ◌∷◌, List, Bool, true, false, sym, ap, leb, ◌+◌, ◌++◌, map, ◌≡◌, refl, inl, inr, ℕ, Option,
  none, some, Bool-cases, Option-cases, if◌then◌else◌, some-injective,
}
use wpa_ctrl_py.Result.{Result-cases}
use wpa_ctrl_py.Text.{Text, Bytes}
use wpa_ctrl_py.Text.Utf8.{encode}
use wpa_ctrl_py.Transport.World.{World, send_data, recv, recv_from, Arrival, later}
use wpa_ctrl_py.Transport.Exec.{after}
use wpa_ctrl_py.Transport.Socket.{Link, connected, send, receive, require_socket, timeout_or}
use wpa_ctrl_py.Transport.Socket.Tidy.{disk, Tidy, Tidy-refl, Tidy-trans, Tidy-same}
use wpa_ctrl_py.Transport.Socket.Tidy.Opening.{open_link-Tidy}
use wpa_ctrl_py.Client.State.{Client}
use wpa_ctrl_py.Client.Request.{request}
use wpa_ctrl_py.Client.Request.Sent.{transport-send}
use wpa_ctrl_py.Client.Request.Keeping.{Keeping, request-keeps}

send_data-files : (bytes : Bytes) (w w' : World) → send_data bytes w ≡ some w' → disk w' ≡ disk w
unfolding send_data
send_data-files bytes w w' h = go w.can_send h
  where
    go :
        (can : Bool)
        → (let sent = w.sent ++ bytes ∷ [] in
            let inbox = w.inbox ++ map (later w.clock) (w.daemon sent) in
            (if can then some (record w { sent = sent; inbox = inbox }) else none) ≡ some w')
        → disk w' ≡ disk w
    go true e = sym (ap disk (some-injective e))
    go false e = cc

files-send : (text : Text) (l : Link) → disk (send text l).1.world ≡ disk l.world
unfolding send require_socket
files-send text l = elim (Bool-cases (connected l.transport)) [
  | inl on ↦ elim (Result-cases (encode text)) [
    | inl (bytes, e) ↦ elim (Option-cases (send_data bytes l.world)) [
      | inl stuck ↦ rw (on, e, stuck) refl
      | inr (w, went) ↦ rw (on, e, went) (send_data-files bytes l.world w went)
    ]
    | inr (x, e) ↦ rw (on, e) refl
  ]
  | inr off ↦ rw off refl
]

recv-files : (t : ℕ) (w : World) → disk (recv t w).1 ≡ disk w
unfolding recv
recv-files t w = go w.inbox
  where
    go : (inbox : List Arrival) → disk (recv_from t w inbox).1 ≡ disk w
    go [] = refl
    go (a ∷ inbox) = elim (Bool-cases (leb a.at (w.clock + t))) [
      | inl timely ↦ rw timely refl
      | inr tardy ↦ rw tardy refl
    ]

receive-same :
    (timeout : Option ℕ) (l : Link)
    → ((receive timeout l).1.transport ≡ l.transport)
      × (disk (receive timeout l).1.world ≡ disk l.world)
unfolding receive require_socket
receive-same timeout l = elim (Bool-cases (connected l.transport)) [
  | inl on ↦ rw on (refl, recv-files (timeout_or timeout l.transport.timeout) l.world)
  | inr off ↦ rw off (refl, refl)
]

Tidy-Keeping : Keeping (λ c d. Tidy c.link d.link)
Tidy-Keeping = record {
  stays = λ c. Tidy-refl c.link;
  follows = λ {c} {d} {e} first second. Tidy-trans c.link d.link e.link first second;
  receives = λ timeout c.
      let (same, files) = receive-same timeout c.link in
      Tidy-same c.link (after (receive timeout) c.link) same files;
  sets_aside = λ e c. Tidy-refl c.link;
}

pub request-Tidy :
    (text : Text) (timeout : Option ℕ) (c : Client)
    → Tidy c.link (after (request text timeout) c).link
request-Tidy text timeout c =
    request-keeps Tidy-Keeping (λ d. open_link-Tidy d.link)
      (λ text' d.
        Tidy-same d.link (after (send text') d.link) (transport-send text' d.link)
          (files-send text' d.link))
      text timeout c
