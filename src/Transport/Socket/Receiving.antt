-- ===== src/Transport/Socket/Receiving.antt =====
-- `receive` and `pending` of wpa_ctrl/transport.py on what has arrived, in time or not.
use wpa_ctrl_py.Base.{
  ℕ, ◌+◌, ◌≡◌, refl, sym, ap, ◌∙◌, inl, inr, Bool, true, false, List, ◌∷◌, arith, Option, some,
  take, leb, if◌then◌else◌, Bool-cases,
}
use wpa_ctrl_py.Result.{err-not-ok, Result, ok, err, connection_error}
use mathlib.Core.Path.{subst}
use wpa_ctrl_py.Text.{Bytes, Text}
use wpa_ctrl_py.Text.Utf8.{decode_replace}
use wpa_ctrl_py.Transport.World.{
  World, Arrival, datagram, recv, recv_from, select_on, select_ready, max_ℕ,
}
use wpa_ctrl_py.Transport.Exec.{outcome, after}
use wpa_ctrl_py.Transport.Socket.{
  Received, timeout_or, Link, connected, recv_buffer, receive, received_text, pending,
  require_socket,
}

pub receive-open :
    (timeout : Option ℕ) (l : Link)
    → connected l.transport ≡ true
    → receive timeout l ≡ (
        let t = timeout_or timeout l.transport.timeout in
        let got = recv t l.world in (received_text t got.0, record l { world = got.1 }))
unfolding receive require_socket
receive-open timeout l on = rw on refl

pending-open :
    (wait : ℕ) (l : Link)
    → connected l.transport ≡ true
    → pending wait l ≡ (
        let got = select_ready wait l.world in
        if l.world.can_select
        then (ok got.0, record l { world = got.1 })
        else (err connection_error, l))
unfolding pending require_socket
pending-open wait l on = rw on refl

pending-closed :
    (wait : ℕ) (l : Link)
    → connected l.transport ≡ false
    → pending wait l ≡ (err connection_error, l)
unfolding pending require_socket
pending-closed wait l off = rw off refl

-- The first packet of the inbox has come in time.
abbrev pub ready_link : Link → ℕ → Link
ready_link l at = record l { world = record l.world { clock = max_ℕ l.world.clock at } }

-- `pending`, by the two tests that it makes.
abbrev pub picked : Link → ℕ → ℕ → Bool → Bool → Result Bool × Link
picked l at wait can early =
    let late = record l { world = record l.world { clock = l.world.clock + wait } } in
    if can
    then (if early then (ok true, ready_link l at) else (ok false, late))
    else (err connection_error, l)

pub pending-picked :
    (wait : ℕ) (l : Link) (a : Arrival) (rest : List Arrival)
    → l.world.inbox ≡ a ∷ rest
    → connected l.transport ≡ true
    → pending wait l ≡ picked l a.at wait l.world.can_select (leb a.at (l.world.clock + wait))
unfolding select_ready
pending-picked wait l a rest same on =
    let run : Bool × World → Result Bool × Link = λ got.
      if l.world.can_select
      then (ok got.0, record l { world = got.1 })
      else (err connection_error, l) in
    pending-open wait l on
    ∙ ap (λ (inbox : List Arrival). run (select_on wait l.world inbox)) same
    ∙ split l.world.can_select (leb a.at (l.world.clock + wait))
  where
    split :
        (can early : Bool)
        → (let w = record l.world { clock = max_ℕ l.world.clock a.at } in
            let w' = record l.world { clock = l.world.clock + wait } in
            let got : Bool × World = if early then (true, w) else (false, w') in
            (if can then (ok got.0, record l { world = got.1 }) else (err connection_error, l))
            ≡ picked l a.at wait can early)
    split true true = refl
    split true false = refl
    split false early = refl

picked-ready :
    (l : Link) (at wait : ℕ) (can early : Bool)
    → (picked l at wait can early).0 ≡ ok true
    → (picked l at wait can early).1 ≡ ready_link l at
picked-ready l at wait true true h = refl
picked-ready l at wait true false h = cc
picked-ready l at wait false early h = cc

pending-ready :
    (wait : ℕ) (l : Link) (a : Arrival) (rest : List Arrival)
    → l.world.inbox ≡ a ∷ rest
    → outcome (pending wait) l ≡ ok true
    → (connected l.transport ≡ true) × (after (pending wait) l ≡ ready_link l a.at)
pending-ready wait l a rest same h = elim (Bool-cases (connected l.transport)) [
  | inl on ↦
      let run = pending-picked wait l a rest same on in
      let first = ap (λ (r : Result Bool × Link). r.0) run in
      let early = leb a.at (l.world.clock + wait) in
      (
        on,
        ap (λ (r : Result Bool × Link). r.1) run
            ∙ picked-ready l a.at wait l.world.can_select early (sym first ∙ h),
      )
  | inr off ↦ absurd (
      err-not-ok {a = true}
        (sym (ap (λ (run : Result Bool × Link). run.0) (pending-closed wait l off)) ∙ h))
]

ready-again :
    (clock at timeout : ℕ)
    → (leb at (max_ℕ clock at + timeout) ≡ true) × (max_ℕ (max_ℕ clock at) at ≡ max_ℕ clock at)
ready-again clock at timeout = (ground arith, ground arith)

pub receive-ready :
    (timeout : ℕ) (l : Link) (a : Arrival) (bytes : Bytes) (rest : List Arrival)
    → l.world.inbox ≡ a ∷ rest
    → a.packet ≡ datagram bytes
    → connected l.transport ≡ true
    → (let l' = ready_link l a.at in
        receive (some timeout) l' ≡ (
          ok (decode_replace (take recv_buffer bytes)),
          record l' { world = record l'.world { inbox = rest } },
        ))
unfolding recv
receive-ready timeout l a bytes rest same e on =
    let l' = ready_link l a.at in
    let got : Received × World → Result Text × Link =
      λ r. (received_text timeout r.0, record l' { world = r.1 }) in
    let (early, clock) = ready-again l.world.clock a.at timeout in
    receive-open (some timeout) l' on
    ∙ ap (λ (inbox : List Arrival). got (recv_from timeout l'.world inbox)) same
    ∙ rw (early, e, clock) refl

-- `pending` foretells `receive`: where it answers that a datagram is there, a `receive` with any
-- timeout takes that datagram, and time does not pass.
pub receive-pending :
    (wait timeout : ℕ) (l : Link) (a : Arrival) (bytes : Bytes) (rest : List Arrival)
    → l.world.inbox ≡ a ∷ rest
    → a.packet ≡ datagram bytes
    → outcome (pending wait) l ≡ ok true
    → (let l' = after (pending wait) l in
        receive (some timeout) l' ≡ (
          ok (decode_replace (take recv_buffer bytes)),
          record l' { world = record l'.world { inbox = rest } },
        ))
receive-pending wait timeout l a bytes rest same e h =
    let (on, ready) = pending-ready wait l a rest same h in
    let Takes = λ (l' : Link). receive (some timeout) l' ≡ (
      ok (decode_replace (take recv_buffer bytes)),
      record l' { world = record l'.world { inbox = rest } },
    ) in
    subst Takes (sym ready) (receive-ready timeout l a bytes rest same e on)
