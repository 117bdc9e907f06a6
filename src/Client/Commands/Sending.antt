-- ===== src/Client/Commands/Sending.antt =====
-- How many commands the client of wpa_ctrl/client.py sends.
pub mod Pages
pub mod Generators
use wpa_ctrl_py.Base.{
  ◌-◌, leb, take, Bool-cases, ℕ, zero, suc, ◌+◌, ◌≤◌, ◌≡◌, refl, sym, ap, ◌∙◌, inl, inr, Bool, true,
  false, List, [], ◌∷◌, ◌++◌, Option, none, some, arith, length, length-append, append-nil,
  append_assoc, if◌then◌else◌, is_empty,
}
use mathlib.Core.Path.{subst}
use wpa_ctrl_py.Result.{Result, ok, err, endless}
use wpa_ctrl_py.Text.{Text, Bytes, codes}
use wpa_ctrl_py.Text.Number.{prefixed_hex}
use wpa_ctrl_py.TextSet.{TextSet, member, add}
use wpa_ctrl_py.Replies.Rows.{Network, parse_networks}
use wpa_ctrl_py.Replies.Parse.{parse_variables}
use wpa_ctrl_py.Replies.Address.{addressed_variables}
use wpa_ctrl_py.Client.Commands.Station.{bss}
use wpa_ctrl_py.Base.Int.{ℤ}
use wpa_ctrl_py.Transport.Exec.{Exec, ◌>>=◌, raise, pure, outcome, after, continue}
use wpa_ctrl_py.Client.State.{Client}
use wpa_ctrl_py.Client.Request.{request}
use wpa_ctrl_py.Client.Request.Once.{sent_by, request-SendsOnce}
use wpa_ctrl_py.Client.Commands.Wording.{ask, one_line, map_option, optional}
use wpa_ctrl_py.Client.Commands.Walks.{
  Keyed, with_id, addressed, keyed_address, iter_bss, iter_stations, iter_p2p_peers, bss_loop,
  stations_loop, peers_loop,
}
use wpa_ctrl_py.Client.Commands.Walks.Pattern.{
  walk, bss_query, keyed_bss, after_bss, after_station, after_peer, bss_loop-walk,
  stations_loop-walk, peers_loop-walk,
}
use wpa_ctrl_py.Client.Commands.Pages.{
  network_pages, iter_networks, flatten, unseen, ids, next_command,
}
use wpa_ctrl_py.Client.Commands.Pages.Distinct.{length-full}

-- At most so many datagrams have gone out, behind those before.
abbrev pub SendsAtMost : ℕ → Client → Client → Type 0
SendsAtMost n c d = (more : List Bytes) × (sent_by d ≡ sent_by c ++ more) × (length more ≤ n)

pub sends_none : (n : ℕ) (c : Client) → SendsAtMost n c c
sends_none n c = ([], sym (append-nil (sent_by c)), omega arith)

pub SendsAtMost-add :
    (n m : ℕ) (c d e : Client) → SendsAtMost n c d → SendsAtMost m d e → SendsAtMost (n + m) c e
SendsAtMost-add n m c d e (more, first, few) (more', second, few') = (
  more ++ more',
  second
      ∙ ap (λ (before : List Bytes). before ++ more') first
      ∙ append_assoc (sent_by c) more more',
  omega (arith, length-append more more'),
)

request-SendsAtMost :
    (text : Text) (timeout : Option ℕ) (c : Client)
    → SendsAtMost 1 c (after (request text timeout) c)
request-SendsAtMost text timeout c = elim (request-SendsOnce text timeout c) [
  | inl once ↦ (once.0 ∷ [], once.2, omega arith)
  | inr failed ↦ ([], failed.2 ∙ sym (append-nil (sent_by c)), omega arith)
]

pub after-pure :
    {A B : Type 0} (r : Result A) (f : A → B) (c : Client)
    → (continue r (λ (a : A). pure {S = Client} (f a)) c).1 ≡ c
after-pure (ok a) f c = refl
after-pure (err e) f c = refl

pub ask-SendsAtMost :
    {A : Type 0} (items : List Text) (read : Text → A) (c : Client)
    → SendsAtMost 1 c (after (ask items read) c)
ask-SendsAtMost items read c =
    let run = request (one_line items) none c in
    subst (SendsAtMost 1 c) (sym (after-pure run.0 read run.1))
      (request-SendsAtMost (one_line items) none c)

pub either :
    {B : Type 0} (done : Bool) (n : ℕ) (d : Client) (more : Exec Client (List B))
    → SendsAtMost n d (after more d)
    → SendsAtMost n d (after (if done then pure [] else more) d)
either true n d more h = sends_none n d
either false n d more h = h

pub SendsAtMost-le : (n m : ℕ) (c d : Client) → n ≤ m → SendsAtMost n c d → SendsAtMost m c d
SendsAtMost-le n m c d h (more, sent, few) = (more, sent, omega arith)

-- A run that gives items has sent one command for each, and one more at most.
abbrev pub Saves : {A : Type 0} → Client → Result (List A) → Client → Type 0
Saves c (ok items) d = SendsAtMost (suc (length items)) c d
Saves c (err e) d = Unit

-- Of a run that gives at most n items.
abbrev pub Thrifty : {A : Type 0} → ℕ → Client → Result (List A) × Client → Type 0
Thrifty n c run = SendsAtMost n c run.1 × Saves c run.0 run.1

-- In front of the rest one command and its items.
pub Saves-more :
    {A : Type 0} (items : List A) (r : Result (List A)) (c d e : Client)
    → 1 ≤ length items
    → SendsAtMost 1 c d
    → Saves d r e
    → (let run = continue r (λ (rest : List A). pure {S = Client} (items ++ rest)) e in
        Saves c run.0 run.1)
Saves-more items (ok rest) c d e full one more =
    SendsAtMost-le (1 + suc (length rest)) (suc (length (items ++ rest))) c e
      (omega (arith, length-append items rest))
      (SendsAtMost-add 1 (suc (length rest)) c d e one more)
Saves-more items (err x) c d e full one more = tt

-- A walk asks once for each item that its consumer takes.
walk-SendsAtMost :
    {A : Type 0} (query : Text → Exec Client (Option (Keyed A))) (next : Text → Text)
    → ((selector : Text) (c : Client) → SendsAtMost 1 c (after (query selector) c))
    → (n : ℕ) (seen : TextSet) (selector : Text) (c : Client)
    → SendsAtMost n c (after (walk query next n seen selector) c)
unfolding walk
walk-SendsAtMost query next once zero seen selector c = sends_none 0 c
walk-SendsAtMost {A} query next once (suc n) seen selector c =
    subst (λ (k : ℕ). SendsAtMost k c (after (walk query next (suc n) seen selector) c))
      (omega arith)
      (SendsAtMost-add 1 n c d (after (walk query next (suc n) seen selector) c) (once selector c) (
        go (query selector c).0
          (λ seen' selector'. walk-SendsAtMost query next once n seen' selector' d)))
  where
    d : Client
    d = after (query selector) c

    go :
        (r : Result (Option (Keyed A)))
        → ((seen' : TextSet) (selector' : Text)
            → SendsAtMost n d (after (walk query next n seen' selector') d))
        → SendsAtMost n d
            (continue r
              (λ found. elim found [
                | none ↦ pure {A = List (Keyed A)} []
                | some item ↦
                    if member item.0 seen
                    then pure []
                    else (walk query next n (add item.0 seen) (next item.0) >>= λ rest.
                        pure (item ∷ rest))
              ])
              d).1
    go (err e) ih = sends_none n d
    go (ok none) ih = sends_none n d
    go (ok (some item)) ih =
        let run = walk query next n (add item.0 seen) (next item.0) d in
        either (member item.0 seen) n d
          (walk query next n (add item.0 seen) (next item.0) >>= λ rest. pure (item ∷ rest))
          (subst (SendsAtMost n d)
            (sym (after-pure run.0 (λ (rest : List (Keyed A)). item ∷ rest) run.1))
            (ih (add item.0 seen) (next item.0)))

walk-Saves :
    {A : Type 0} (query : Text → Exec Client (Option (Keyed A))) (next : Text → Text)
    → ((selector : Text) (c : Client) → SendsAtMost 1 c (after (query selector) c))
    → (n : ℕ) (seen : TextSet) (selector : Text) (c : Client)
    → (let run = walk query next n seen selector c in Saves c run.0 run.1)
unfolding walk
walk-Saves query next once zero seen selector c = sends_none 1 c
walk-Saves {A} query next once (suc n) seen selector c =
    go (query selector c).0 (after (query selector) c) (once selector c)
      (λ seen' selector' d. walk-Saves query next once n seen' selector' d)
  where
    go :
        (r : Result (Option (Keyed A))) (d : Client)
        → SendsAtMost 1 c d
        → ((seen' : TextSet) (selector' : Text) (d : Client)
            → (let run = walk query next n seen' selector' d in Saves d run.0 run.1))
        → (let run =
              continue r
                (λ found. elim found [
                  | none ↦ pure {A = List (Keyed A)} []
                  | some item ↦
                      if member item.0 seen
                      then pure []
                      else (walk query next n (add item.0 seen) (next item.0) >>= λ rest.
                          pure (item ∷ rest))
                ])
                d in
            Saves c run.0 run.1)
    go (err e) d one ih = tt
    go (ok none) d one ih = one
    go (ok (some item)) d one ih = elim (Bool-cases (member item.0 seen)) [
      | inl old ↦ rw old one
      | inr new ↦ rw new (
          let run = walk query next n (add item.0 seen) (next item.0) d in
          Saves-more (item ∷ []) run.0 c d run.1 (omega arith) one
            (ih (add item.0 seen) (next item.0) d))
    ]

pub walk-Thrifty :
    {A : Type 0} (query : Text → Exec Client (Option (Keyed A))) (next : Text → Text)
    → ((selector : Text) (c : Client) → SendsAtMost 1 c (after (query selector) c))
    → (n : ℕ) (seen : TextSet) (selector : Text) (c : Client)
    → Thrifty n c (walk query next n seen selector c)
walk-Thrifty query next once n seen selector c = (
  walk-SendsAtMost query next once n seen selector c,
  walk-Saves query next once n seen selector c,
)
