-- ===== src/Client/Commands/Pages/Enough.antt =====
-- The fuel of the walk over the networks of wpa_ctrl/client.py is enough.
use wpa_ctrl_py.Base.{
  ℕ, zero, suc, ◌-◌, ◌≡◌, ◌≤◌, refl, ap, inl, inr, List, [], ◌∷◌, ◌++◌, arith, if◌then◌else◌,
  Bool-cases, is_empty, length, leb, take,
}
use wpa_ctrl_py.Base.Int.{ℤ}
use wpa_ctrl_py.Result.{Result, ok, err}
use wpa_ctrl_py.Text.{Text}
use wpa_ctrl_py.Replies.Rows.{Network, parse_networks}
use wpa_ctrl_py.Transport.Exec.{◌>>=◌, pure, continue}
use wpa_ctrl_py.Client.State.{Client}
use wpa_ctrl_py.Client.Commands.Wording.{ask}
use wpa_ctrl_py.Client.Commands.Pages.{unseen, ids, next_command, network_pages}
use wpa_ctrl_py.Client.Commands.Pages.Distinct.{length-full}

-- With as many turns as networks are wanted, or more, the walk is the same: it does not run out.
pub pages-turns :
    (turns more wanted : ℕ) (seen : List ℤ) (command : Text) (c : Client)
    → wanted ≤ turns
    → wanted ≤ more
    → network_pages turns wanted seen command c ≡ network_pages more wanted seen command c
unfolding network_pages
pages-turns zero zero zero seen command c h k = refl
pages-turns zero (suc more) zero seen command c h k = refl
pages-turns (suc turns) zero zero seen command c h k = refl
pages-turns (suc turns) (suc more) zero seen command c h k = refl
pages-turns zero more (suc wanted) seen command c h k = absurd (omega arith)
pages-turns (suc turns) zero (suc wanted) seen command c h k = absurd (omega arith)
pages-turns (suc turns) (suc more) (suc wanted) seen command c h k =
    go
      (λ wanted' seen' command' d small small'.
        pages-turns turns more wanted' seen' command' d small small')
      (ask (command ∷ []) parse_networks c).0 (ask (command ∷ []) parse_networks c).1
  where
    go :
        ((wanted' : ℕ) (seen' : List ℤ) (command' : Text) (d : Client)
          → wanted' ≤ turns
          → wanted' ≤ more
          → network_pages turns wanted' seen' command' d
            ≡ network_pages more wanted' seen' command' d)
        → (r : Result (List Network)) (d : Client)
        → continue r
            (λ page.
              let new = unseen seen page in
              if is_empty new
              then pure []
              else if leb (suc wanted) (length new)
              then pure (take (suc wanted) new ∷ [])
              else (network_pages turns
                    (suc wanted - length new)
                    (ids new ++ seen)
                    (next_command new)
                  >>= λ rest. pure (new ∷ rest)))
            d
          ≡ continue r
              (λ page.
                let new = unseen seen page in
                if is_empty new
                then pure []
                else if leb (suc wanted) (length new)
                then pure (take (suc wanted) new ∷ [])
                else (network_pages more
                      (suc wanted - length new)
                      (ids new ++ seen)
                      (next_command new)
                    >>= λ rest. pure (new ∷ rest)))
              d
    go ih (err e) d = refl
    go ih (ok page) d =
        let new = unseen seen page in
        elim (Bool-cases (is_empty new)) [
          | inl none_new ↦ rw none_new refl
          | inr some_new ↦ elim (Bool-cases (leb (suc wanted) (length new))) [
            | inl enough ↦ rw (some_new, enough) refl
            | inr too_few ↦
                let full = length-full new some_new in
                rw (some_new, too_few)
                  (ap
                    (λ (run : Result (List (List Network)) × Client).
                      continue run.0 (λ rest. pure {S = Client} (new ∷ rest)) run.1)
                    (ih (suc wanted - length new) (ids new ++ seen) (next_command new) d
                      (omega arith) (omega arith)))
          ]
        ]
