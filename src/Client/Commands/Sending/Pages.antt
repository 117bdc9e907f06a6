-- ===== src/Client/Commands/Sending/Pages.antt =====
-- How many commands `iter_networks` of wpa_ctrl/client.py sends.
use wpa_ctrl_py.Base.{
  ◌-◌, leb, take, Bool-cases, ℕ, zero, suc, ◌+◌, ◌≤◌, sym, inl, inr, List, [], ◌∷◌, ◌++◌, arith,
  length, if◌then◌else◌, is_empty,
}
use mathlib.Core.Path.{subst}
use wpa_ctrl_py.Result.{Result, ok, err}
use wpa_ctrl_py.Text.{Text, codes}
use wpa_ctrl_py.Replies.Rows.{Network, parse_networks}
use wpa_ctrl_py.Base.Int.{ℤ}
use wpa_ctrl_py.Transport.Exec.{Exec, ◌>>=◌, pure, outcome, after, continue}
use wpa_ctrl_py.Client.State.{Client}
use wpa_ctrl_py.Client.Commands.Wording.{ask}
use wpa_ctrl_py.Client.Commands.Pages.{
  network_pages, iter_networks, flatten, unseen, ids, next_command,
}
use wpa_ctrl_py.Client.Commands.Pages.Distinct.{length-full}
use wpa_ctrl_py.Client.Commands.Sending.{
  SendsAtMost, sends_none, SendsAtMost-add, SendsAtMost-le, after-pure, ask-SendsAtMost, Saves,
  Saves-more, Thrifty,
}

-- What a page of the walk does; `again` is the rest of the loop.
abbrev turn :
    ℕ
    → List ℤ
    → (ℕ → List ℤ → Text → Exec Client (List (List Network)))
    → List Network
    → Exec Client (List (List Network))
turn wanted seen again page =
    let new = unseen seen page in
    if is_empty new
    then pure []
    else if leb (suc wanted) (length new)
    then pure (take (suc wanted) new ∷ [])
    else (again (suc wanted - length new) (ids new ++ seen) (next_command new) >>= λ rest.
        pure (new ∷ rest))

pub pages-SendsAtMost :
    (turns wanted : ℕ) (seen : List ℤ) (command : Text) (c : Client)
    → SendsAtMost wanted c (after (network_pages turns wanted seen command) c)
unfolding network_pages
pages-SendsAtMost zero zero seen command c = sends_none 0 c
pages-SendsAtMost (suc turns) zero seen command c = sends_none 0 c
pages-SendsAtMost zero (suc wanted) seen command c = sends_none (suc wanted) c
pages-SendsAtMost (suc turns) (suc wanted) seen command c =
    go (outcome (ask (command ∷ []) parse_networks) c) (after (ask (command ∷ []) parse_networks) c)
      (ask-SendsAtMost (command ∷ []) parse_networks c)
      (λ wanted' seen' command' d. pages-SendsAtMost turns wanted' seen' command' d)
  where
    go :
        (r : Result (List Network)) (d : Client)
        → SendsAtMost 1 c d
        → ((wanted' : ℕ) (seen' : List ℤ) (command' : Text) (d : Client)
            → SendsAtMost wanted' d (after (network_pages turns wanted' seen' command') d))
        → SendsAtMost (suc wanted) c (continue r (turn wanted seen (network_pages turns)) d).1
    go (err e) d one ih = SendsAtMost-le 1 (suc wanted) c d (omega arith) one
    go (ok page) d one ih =
        let new = unseen seen page in
        let last = SendsAtMost-le 1 (suc wanted) c d (omega arith) one in
        elim (Bool-cases (is_empty new)) [
          | inl none_new ↦ rw none_new last
          | inr some_new ↦ elim (Bool-cases (leb (suc wanted) (length new))) [
            | inl enough ↦ rw (some_new, enough) last
            | inr too_few ↦
                rw (some_new, too_few)
                  (let left = suc wanted - length new in
                    let run = network_pages turns left (ids new ++ seen) (next_command new) d in
                    let full = length-full new some_new in
                    subst (SendsAtMost (suc wanted) c)
                      (sym (after-pure run.0 (λ (rest : List (List Network)). new ∷ rest) run.1))
                      (SendsAtMost-le (1 + left) (suc wanted) c run.1 (omega arith) (
                        SendsAtMost-add 1 left c d run.1 one
                          (ih left (ids new ++ seen) (next_command new) d))))
          ]
        ]

-- The networks of the pages that a run gives.
abbrev networks_of : Result (List (List Network)) → Result (List Network)
networks_of (ok pages) = ok (flatten pages)
networks_of (err e) = err e

flatten-more :
    (new : List Network) (r : Result (List (List Network))) (c d e : Client)
    → 1 ≤ length new
    → SendsAtMost 1 c d
    → Saves d (networks_of r) e
    → (let run = continue r (λ rest. pure {S = Client} (new ∷ rest)) e in
        Saves c (networks_of run.0) run.1)
flatten-more new (ok pages) c d e full one more =
    Saves-more new (ok (flatten pages)) c d e full one more
flatten-more new (err x) c d e full one more = tt

pages-Saves :
    (turns wanted : ℕ) (seen : List ℤ) (command : Text) (c : Client)
    → (let run = network_pages turns wanted seen command c in Saves c (networks_of run.0) run.1)
unfolding network_pages
pages-Saves zero zero seen command c = sends_none 1 c
pages-Saves (suc turns) zero seen command c = sends_none 1 c
pages-Saves zero (suc wanted) seen command c = tt
pages-Saves (suc turns) (suc wanted) seen command c =
    go (outcome (ask (command ∷ []) parse_networks) c) (after (ask (command ∷ []) parse_networks) c)
      (ask-SendsAtMost (command ∷ []) parse_networks c)
      (λ wanted' seen' command' d. pages-Saves turns wanted' seen' command' d)
  where
    go :
        (r : Result (List Network)) (d : Client)
        → SendsAtMost 1 c d
        → ((wanted' : ℕ) (seen' : List ℤ) (command' : Text) (d : Client)
            → (let run = network_pages turns wanted' seen' command' d in
                Saves d (networks_of run.0) run.1))
        → (let run = continue r (turn wanted seen (network_pages turns)) d in
            Saves c (networks_of run.0) run.1)
    go (err e) d one ih = tt
    go (ok page) d one ih =
        let new = unseen seen page in
        elim (Bool-cases (is_empty new)) [
          | inl none_new ↦ rw none_new one
          | inr some_new ↦ elim (Bool-cases (leb (suc wanted) (length new))) [
            | inl enough ↦
                rw (some_new, enough)
                  (SendsAtMost-le 1 (suc (length (take (suc wanted) new ++ []))) c d (omega arith)
                    one)
            | inr too_few ↦
                rw (some_new, too_few)
                  (let left = suc wanted - length new in
                    let run = network_pages turns left (ids new ++ seen) (next_command new) d in
                    flatten-more new run.0 c d run.1 (length-full new some_new) one
                      (ih left (ids new ++ seen) (next_command new) d))
          ]
        ]

pub networks-Thrifty : (n : ℕ) (c : Client) → Thrifty n c (iter_networks n c)
unfolding iter_networks
networks-Thrifty n c =
    let run = network_pages n n [] (codes "LIST_NETWORKS") c in
    (
      subst (SendsAtMost n c) (sym (after-pure run.0 flatten run.1))
          (pages-SendsAtMost n n [] (codes "LIST_NETWORKS") c),
      go run.0 run.1 (pages-Saves n n [] (codes "LIST_NETWORKS") c),
    )
  where
    go :
        (r : Result (List (List Network))) (d : Client)
        → Saves c (networks_of r) d
        → (let run = continue r (λ pages. pure {S = Client} (flatten pages)) d in
            Saves c run.0 run.1)
    go (ok pages) d saves = saves
    go (err e) d saves = tt
