-- ===== src/Client/Commands/Pages/Distinct.antt =====
-- What the walk over the networks of wpa_ctrl/client.py yields has no network twice.
use wpa_ctrl_py.Base.{
  ◌-◌, leb, take, refl, sym, length-append, ℕ, zero, suc, ◌≡◌, ◌≤◌, inl, inr, false, List, [], ◌∷◌,
  ◌++◌, arith, if◌then◌else◌, Bool-cases, is_empty, length, All,
}
use wpa_ctrl_py.Base.Int.{ℤ}
use wpa_ctrl_py.Result.{Result, ok, err, ok-injective, err-not-ok}
use wpa_ctrl_py.Text.{Text, codes}
use wpa_ctrl_py.Replies.Rows.{Network, parse_networks}
use wpa_ctrl_py.Transport.Exec.{◌>>=◌, pure, outcome, continue}
use wpa_ctrl_py.Client.State.{Client}
use wpa_ctrl_py.Client.Commands.Wording.{ask}
use wpa_ctrl_py.Client.Commands.Pages.{
  was_seen, unseen, ids, next_command, network_pages, iter_networks, flatten,
}

-- Every page brings something, and nothing of it was on a page before.
abbrev pub NewPages : List ℤ → List (List Network) → Type 0
NewPages seen [] = Unit
NewPages seen (page ∷ pages) =
    (is_empty page ≡ false)
    × All (λ (n : Network). was_seen n.id seen ≡ false) page
    × NewPages (ids page ++ seen) pages

unseen-All :
    (seen : List ℤ) (page : List Network)
    → All (λ (n : Network). was_seen n.id seen ≡ false) (unseen seen page)
unfolding unseen
unseen-All seen [] = tt
unseen-All seen (n ∷ page) = elim (Bool-cases (was_seen n.id seen)) [
  | inl old ↦ rw old (unseen-All seen page)
  | inr new ↦ rw new (new, unseen-All seen page)
]

length-take-le : (n : ℕ) (networks : List Network) → length (take n networks) ≤ n
length-take-le zero networks = omega arith
length-take-le (suc n) [] = omega arith
length-take-le (suc n) (x ∷ networks) = omega (arith, length-take-le n networks)

All-take :
    (P : Network → Type 0) (n : ℕ) (networks : List Network)
    → All P networks
    → All P (take n networks)
All-take P zero networks h = tt
All-take P (suc n) [] h = tt
All-take P (suc n) (x ∷ networks) (hx, h) = (hx, All-take P n networks h)

take-full :
    (n : ℕ) (networks : List Network)
    → is_empty networks ≡ false
    → is_empty (take (suc n) networks) ≡ false
take-full n [] h = cc
take-full n (x ∷ networks) h = refl

pub length-full : (networks : List Network) → is_empty networks ≡ false → 1 ≤ length networks
length-full [] h = cc
length-full (x ∷ networks) h = omega arith

abbrev Yields : ℕ → List ℤ → Result (List (List Network)) → Type 0
Yields wanted seen (ok pages) = NewPages seen pages × length (flatten pages) ≤ wanted
Yields wanted seen (err e) = Unit

Yields-last :
    (wanted : ℕ) (seen : List ℤ) (new : List Network)
    → is_empty new ≡ false
    → All (λ (n : Network). was_seen n.id seen ≡ false) new
    → Yields (suc wanted) seen (ok (take (suc wanted) new ∷ []))
Yields-last wanted seen new full fresh = (
  (take-full wanted new full, All-take _ (suc wanted) new fresh, tt),
  omega (arith, length-append (take (suc wanted) new) [], length-take-le (suc wanted) new),
)

Yields-more :
    (wanted : ℕ) (seen : List ℤ) (new : List Network)
    → is_empty new ≡ false
    → length new ≤ wanted
    → All (λ (n : Network). was_seen n.id seen ≡ false) new
    → (r : Result (List (List Network))) (c : Client)
    → Yields (suc wanted - length new) (ids new ++ seen) r
    → Yields (suc wanted) seen (continue r (λ rest. pure (new ∷ rest)) c).0
Yields-more wanted seen new full few fresh (ok pages) c (distinct, most) =
    ((full, fresh, distinct), omega (arith, length-append new (flatten pages)))
Yields-more wanted seen new full few fresh (err e) c h = tt

pages-Yields :
    (turns wanted : ℕ) (seen : List ℤ) (command : Text) (c : Client)
    → Yields wanted seen (outcome (network_pages turns wanted seen command) c)
unfolding network_pages
pages-Yields zero zero seen command c = (tt, omega arith)
pages-Yields (suc turns) zero seen command c = (tt, omega arith)
pages-Yields zero (suc wanted) seen command c = tt
pages-Yields (suc turns) (suc wanted) seen command c =
    go (λ wanted' seen' command' c'. pages-Yields turns wanted' seen' command' c')
      (ask (command ∷ []) parse_networks c).0 (ask (command ∷ []) parse_networks c).1
  where
    go :
        ((wanted' : ℕ) (seen' : List ℤ) (command' : Text) (c' : Client)
          → Yields wanted' seen' (outcome (network_pages turns wanted' seen' command') c'))
        → (r : Result (List Network)) (c' : Client)
        → Yields
            (suc wanted)
            seen
            (continue r
              (λ page.
                let new = unseen seen page in
                if is_empty new
                then pure []
                else if leb (suc wanted) (length new)
                then pure (take (suc wanted) new ∷ [])
                else (network_pages turns
                      (suc wanted - length new)
                      (ids new ++ seen)
                      (next_command new)
                    >>= λ rest. pure (new ∷ rest)))
              c').0
    go ih (err e) c' = tt
    go ih (ok page) c' =
        let new = unseen seen page in
        elim (Bool-cases (is_empty new)) [
          | inl none_new ↦ rw none_new (tt, omega arith)
          | inr some_new ↦ elim (Bool-cases (leb (suc wanted) (length new))) [
            | inl enough ↦
                rw (some_new, enough) (Yields-last wanted seen new some_new (unseen-All seen page))
            | inr too_few ↦
                rw (some_new, too_few)
                  (let rest =
                      network_pages turns (suc wanted - length new) (ids new ++ seen)
                        (next_command new) c' in
                    Yields-more wanted seen new some_new (ground arith) (unseen-All seen page)
                      rest.0 rest.1
                      (ih (suc wanted - length new) (ids new ++ seen) (next_command new) c'))
          ]
        ]

flattened :
    (n : ℕ) (r : Result (List (List Network))) (c : Client) (networks : List Network)
    → Yields n [] r
    → (continue r (λ pages. pure {S = Client} (flatten pages)) c).0 ≡ ok networks
    → (pages : List (List Network)) × (r ≡ ok pages)
      × (networks ≡ flatten pages)
      × NewPages [] pages
      × length networks ≤ n
flattened n (ok pages) c networks (distinct, few) h =
    let same = ok-injective h in (pages, refl, sym same, distinct, rw (← same) few)
flattened n (err e) c networks yields h = absurd (err-not-ok h)

-- The networks that the walk yields are those of the pages that it has read, one behind the other,
-- the last page up to what its consumer takes: every page brings at least one network and none that
-- was on an earlier page, whatever the daemon answers; and there are no more networks than the
-- consumer takes.
pub iter_networks-NewPages :
    (n : ℕ) (c : Client) (networks : List Network)
    → outcome (iter_networks n) c ≡ ok networks
    → (pages : List (List Network)) × (outcome (network_pages n n [] (codes "LIST_NETWORKS")) c
        ≡ ok pages)
      × (networks ≡ flatten pages)
      × NewPages [] pages
      × length networks ≤ n
unfolding iter_networks
iter_networks-NewPages n c networks h =
    let run = network_pages n n [] (codes "LIST_NETWORKS") c in
    flattened n run.0 run.1 networks (pages-Yields n n [] (codes "LIST_NETWORKS") c) h
