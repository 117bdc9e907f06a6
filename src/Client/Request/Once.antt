-- ===== src/Client/Request/Once.antt =====
-- How often a request of wpa_ctrl/client.py sends: once, or not at all.
use wpa_ctrl_py.Base.{
  ℕ, suc, ◌+◌, ◌≡◌, refl, sym, ap, ◌∙◌, ◌⊎◌, inl, inr, List, [], ◌∷◌, ◌++◌, Option, length, leb,
  Bool-cases, Option-cases,
}
use wpa_ctrl_py.Result.{Result, Error, Result-cases, ok, err, err-not-ok}
use wpa_ctrl_py.Text.{Text, Bytes}
use wpa_ctrl_py.Text.Utf8.{encode}
use wpa_ctrl_py.Transport.World.{World, Arrival, send_data, recv, recv_from}
use wpa_ctrl_py.Transport.Exec.{◌>>◌, Exec, after, continue}
use wpa_ctrl_py.Transport.Socket.{
  Link, connected, open_link, send, receive, require_socket, timeout_or,
}
use wpa_ctrl_py.Transport.Socket.Carrying.{send-bytes}
use wpa_ctrl_py.Transport.Socket.Ignoring.{open_link-ignores}
use wpa_ctrl_py.Client.State.{Client, on_link}
use wpa_ctrl_py.Client.Request.{request, await_reply}
use wpa_ctrl_py.Client.Request.Keeping.{Keeping, loop-keeps}

abbrev pub sent_by : Client → List Bytes
sent_by c = c.link.world.sent

recv-sent : (t : ℕ) (w : World) → (recv t w).1.sent ≡ w.sent
unfolding recv
recv-sent t w = go w.inbox
  where
    go : (inbox : List Arrival) → (recv_from t w inbox).1.sent ≡ w.sent
    go [] = refl
    go (a ∷ inbox) = elim (Bool-cases (leb a.at (w.clock + t))) [
      | inl timely ↦ rw timely refl
      | inr tardy ↦ rw tardy refl
    ]

receive-sent_by : (timeout : Option ℕ) (l : Link) → (receive timeout l).1.world.sent ≡ l.world.sent
unfolding receive require_socket
receive-sent_by timeout l = elim (Bool-cases (connected l.transport)) [
  | inl on ↦ rw on (recv-sent (timeout_or timeout l.transport.timeout) l.world)
  | inr off ↦ rw off refl
]

waiting-Keeping : Keeping (λ c d. sent_by d ≡ sent_by c)
waiting-Keeping = record {
  stays = λ c. refl;
  follows = λ first second. second ∙ first;
  receives = λ timeout c. receive-sent_by timeout c.link;
  sets_aside = λ e c. refl;
}

-- A send that fails sends nothing.
send-failed :
    (text : Text) (l : Link) (e : Error)
    → (send text l).0 ≡ err e
    → (send text l).1.world.sent ≡ l.world.sent
unfolding send require_socket
send-failed text l e h = elim (Bool-cases (connected l.transport)) [
  | inl on ↦ elim (Result-cases (encode text)) [
    | inl (bytes, fits) ↦ elim (Option-cases (send_data bytes l.world)) [
      | inl stuck ↦ rw (on, fits, stuck) refl
      | inr (w, went) ↦ absurd (err-not-ok (sym (rw (on, fits, went) at h)))
    ]
    | inr (x, bad) ↦ rw (on, bad) refl
  ]
  | inr off ↦ rw off refl
]

-- What a request has sent: its text, or nothing.
abbrev pub SendsOnce : Text → Client → Result Text × Client → Type 0
SendsOnce text c run =
    ((bytes : Bytes) × (encode text ≡ ok bytes) × (sent_by run.1 ≡ sent_by c ++ bytes ∷ []))
    ⊎ ((e : Error) × (run.0 ≡ err e) × (sent_by run.1 ≡ sent_by c))

-- A request puts its command out exactly once, as one datagram, or it raises and has sent nothing:
-- whatever arrives meanwhile, nothing is sent again.
pub request-SendsOnce :
    (text : Text) (timeout : Option ℕ) (c : Client) → SendsOnce text c (request text timeout c)
unfolding request
request-SendsOnce text timeout c =
    go (open_link c.link).0 (after (on_link open_link) c)
      (open_link-ignores (λ w. w.sent) (λ w files. refl) c.link)
  where
    limit : ℕ
    limit = timeout_or timeout c.timeout

    wait : Exec Client Text
    wait d = await_reply (d.link.world.clock + limit) d

    gone :
        (r : Result {0} (Unit {0})) (d d' : Client)
        → sent_by d ≡ sent_by c
        → on_link (send text) d ≡ (r, d')
        → SendsOnce text c (continue r (λ _. wait) d')
    gone (err e) d d' same h = inr (
      e,
      refl,
      ap (λ (run : Result {0} (Unit {0}) × Client). sent_by run.1) (sym h)
          ∙ send-failed text d.link e (ap (λ (run : Result {0} (Unit {0}) × Client). run.0) h)
          ∙ same,
    )
    gone (ok u) d d' same h =
        let shrink : Result {0} (Unit {0}) × Client → Result {0} (Unit {0}) × Link =
          λ run. (run.0, run.1.link) in
        let (bytes, encoded, sent) = send-bytes text d.link d'.link (ap shrink h) in
        let n = suc (length d'.link.world.inbox) in
        inl (
          bytes,
          encoded,
          loop-keeps waiting-Keeping n (d'.link.world.clock + limit) d'
              ∙ sent
              ∙ ap (λ (before : List Bytes). before ++ bytes ∷ []) same,
        )

    go :
        (r : Result {0} (Unit {0})) (d : Client)
        → sent_by d ≡ sent_by c
        → SendsOnce text c (continue r (λ _. on_link (send text) >> wait) d)
    go (err e) d same = inr (e, refl, same)
    go (ok u) d same = gone (send text d.link).0 d (after (on_link (send text)) d) same refl
