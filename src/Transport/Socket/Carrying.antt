-- ===== src/Transport/Socket/Carrying.antt =====
-- A text from one end of a connection of wpa_ctrl/transport.py to the other.
use wpa_ctrl_py.Base.{
  ℕ, ◌+◌, ◌≤◌, ◌≡◌, refl, sym, ap, ◌∙◌, inl, inr, Bool, true, false, List, [], ◌∷◌, ◌++◌, Option,
  none, some, take, length, take-length, le→leb, All, Bool-cases, Option-cases, if◌then◌else◌, map,
  some-injective,
}
use wpa_ctrl_py.Result.{ok-injective, Result, Result-cases, ok, err-not-ok}
use wpa_ctrl_py.Text.{Text, Bytes}
use wpa_ctrl_py.Text.Utf8.{encode, decode_replace}
use wpa_ctrl_py.Text.Utf8.Ascii.{IsScalar}
use wpa_ctrl_py.Text.Utf8.RoundTrip.{decode-encode}
use wpa_ctrl_py.Transport.World.{World, Arrival, datagram, send_data, later, recv, recv_from, max_ℕ}
use wpa_ctrl_py.Transport.Socket.{
  Link, connected, send, receive, received_text, recv_buffer, require_socket, timeout_or,
}
use wpa_ctrl_py.Transport.Socket.Receiving.{receive-open}

send_data-sent :
    (bytes : Bytes) (w w' : World) → send_data bytes w ≡ some w' → w'.sent ≡ w.sent ++ bytes ∷ []
unfolding send_data
send_data-sent bytes w w' h = go w.can_send h
  where
    go :
        (can : Bool)
        → (let sent = w.sent ++ bytes ∷ [] in
            let inbox = w.inbox ++ map (later w.clock) (w.daemon sent) in
            (if can then some (record w { sent = sent; inbox = inbox }) else none) ≡ some w')
        → w'.sent ≡ w.sent ++ bytes ∷ []
    go true e = sym (ap (λ (v : World). v.sent) (some-injective e))
    go false e = cc

-- A text that goes out goes out encoded.
pub send-bytes :
    (text : Text) (l l' : Link)
    → send text l ≡ (ok tt, l')
    → (bytes : Bytes) × (encode text ≡ ok bytes) × (l'.world.sent ≡ l.world.sent ++ bytes ∷ [])
unfolding send require_socket
send-bytes text l l' h = elim (Bool-cases (connected l.transport)) [
  | inl on ↦ elim (Result-cases (encode text)) [
    | inl (bytes, e) ↦ elim (Option-cases (send_data bytes l.world)) [
      | inl stuck ↦
          absurd
            (err-not-ok (ap (λ (run : Result (Unit {0}) × Link). run.0) (rw (on, e, stuck) at h)))
      | inr (w, went) ↦ (
        bytes,
        e,
        sym (ap (λ (run : Result (Unit {0}) × Link). run.1.world.sent) (rw (on, e, went) at h))
            ∙ send_data-sent bytes l.world w went,
      )
    ]
    | inr (x, e) ↦
        absurd (err-not-ok (ap (λ (run : Result (Unit {0}) × Link). run.0) (rw (on, e) at h)))
  ]
  | inr off ↦ absurd (err-not-ok (ap (λ (run : Result (Unit {0}) × Link). run.0) (rw off at h)))
]

snoc-injective : (xs : List Bytes) (a b : Bytes) → xs ++ a ∷ [] ≡ xs ++ b ∷ [] → a ≡ b
snoc-injective [] a b h = cc
snoc-injective (x ∷ xs) a b h = snoc-injective xs a b (cc)

-- A datagram that is there in time.
receive-datagram :
    (timeout : Option ℕ) (l : Link) (at : ℕ) (bytes : Bytes) (rest : List Arrival)
    → connected l.transport ≡ true
    → l.world.inbox ≡ record { at = at; packet = datagram bytes } ∷ rest
    → at ≤ l.world.clock + timeout_or timeout l.transport.timeout
    → receive timeout l ≡ (
      ok (decode_replace (take recv_buffer bytes)),
      record l { world = record l.world { clock = max_ℕ l.world.clock at; inbox = rest } },
    )
unfolding recv
receive-datagram timeout l at bytes rest on inbox intime =
    let t = timeout_or timeout l.transport.timeout in
    receive-open timeout l on
    ∙ ap
        (λ (inbox : List Arrival).
          let got = recv_from t l.world inbox in
          (received_text t got.0, record l { world = got.1 }))
        inbox
    ∙ rw (le→leb at (l.world.clock + t) intime) refl

-- A text without surrogates that one end has sent, in at most 65536 bytes, is what the other end
-- receives, if the datagram is the next and comes in time; it is taken off the socket.
pub receive-sent :
    (text : Text) (l l' m : Link) (bytes : Bytes) (timeout : Option ℕ) (at : ℕ)
    (rest : List Arrival)
    → All IsScalar text
    → send text l ≡ (ok tt, l')
    → l'.world.sent ≡ l.world.sent ++ bytes ∷ []
    → length bytes ≤ 65536
    → connected m.transport ≡ true
    → m.world.inbox ≡ record { at = at; packet = datagram bytes } ∷ rest
    → at ≤ m.world.clock + timeout_or timeout m.transport.timeout
    → receive timeout m ≡ (
      ok text,
      record m { world = record m.world { clock = max_ℕ m.world.clock at; inbox = rest } },
    )
receive-sent text l l' m bytes timeout at rest scalars went sent few on inbox intime =
    let (sent_bytes, encoded, sent') = send-bytes text l l' went in
    let (code, encoded', strict, decoded) = decode-encode text scalars in
    let same : code ≡ bytes =
      ok-injective (sym encoded' ∙ encoded)
      ∙ snoc-injective l.world.sent sent_bytes bytes (sym sent' ∙ sent) in
    receive-datagram timeout m at bytes rest on inbox intime
    ∙ ap
        (λ (got : Text).
          let clock = max_ℕ m.world.clock at in
          let run : Result Text × Link =
            (ok got, record m { world = record m.world { clock = clock; inbox = rest } }) in
          run)
        (ap decode_replace (take-length bytes recv_buffer few ∙ sym same) ∙ decoded)
