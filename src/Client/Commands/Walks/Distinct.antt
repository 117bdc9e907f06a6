-- ===== src/Client/Commands/Walks/Distinct.antt =====
-- What the walks of wpa_ctrl/client.py yield has no key twice.
use wpa_ctrl_py.Base.{
  arith, ◌≤◌, length, ℕ, zero, suc, ◌≡◌, inl, inr, false, List, [], ◌∷◌, Option, none, some,
  if◌then◌else◌, Bool-cases,
}
use mathlib.Core.Path.{subst}
use wpa_ctrl_py.Result.{Result, ok, err}
use wpa_ctrl_py.Text.{Text}
use wpa_ctrl_py.TextSet.{TextSet, member, add}
use wpa_ctrl_py.Transport.Exec.{continue, Exec, ◌>>=◌, pure, outcome}
use wpa_ctrl_py.Client.State.{Client}
use wpa_ctrl_py.Client.Commands.Walks.{Keyed}
use wpa_ctrl_py.Client.Commands.Walks.Pattern.{walk}

-- No key is among those seen, or twice in the list.
abbrev pub Fresh : TextSet → List Text → Type 0
Fresh seen [] = Unit
Fresh seen (key ∷ keys) = (member key seen ≡ false) × Fresh (add key seen) keys

abbrev pub keys : {A : Type 0} → List (Keyed A) → List Text
keys [] = []
keys (item ∷ items) = item.0 ∷ keys items

abbrev Yields : {A : Type 0} → ℕ → TextSet → Result (List (Keyed A)) → Type 0
Yields n seen (ok items) = Fresh seen (keys items) × length items ≤ n
Yields n seen (err e) = Unit

Yields-more :
    {A : Type 0} (n : ℕ) (seen : TextSet) (item : Keyed A)
    → member item.0 seen ≡ false
    → (r : Result (List (Keyed A))) (c : Client) → Yields n (add item.0 seen) r
    → Yields (suc n) seen (continue r (λ rest. pure (item ∷ rest)) c).0
Yields-more n seen item new (ok items) c (fresh, few) = ((new, fresh), omega arith)
Yields-more n seen item new (err e) c h = tt

walk-Yields :
    {A : Type 0} (query : Text → Exec Client (Option (Keyed A))) (next : Text → Text) (n : ℕ)
    (seen : TextSet) (selector : Text) (c : Client)
    → Yields n seen (outcome (walk query next n seen selector) c)
unfolding walk
walk-Yields query next zero seen selector c = (tt, omega arith)
walk-Yields {A} query next (suc n) seen selector c =
    go (λ seen' selector' c'. walk-Yields query next n seen' selector' c') (query selector c).0
      (query selector c).1
  where
    go :
        ((seen' : TextSet) (selector' : Text) (c' : Client)
          → Yields {A = A} n seen' (outcome (walk query next n seen' selector') c'))
        → (r : Result (Option (Keyed A))) (c' : Client)
        → Yields {A = A}
            (suc n)
            seen
            (continue r
              (λ found. elim found [
                | none ↦ pure []
                | some item ↦
                    if member item.0 seen
                    then pure []
                    else (walk query next n (add item.0 seen) (next item.0) >>= λ rest.
                        pure (item ∷ rest))
              ])
              c').0
    go ih (err e) c' = tt
    go ih (ok none) c' = (tt, omega arith)
    go ih (ok (some item)) c' = elim (Bool-cases (member item.0 seen)) [
      | inl old ↦ rw old (tt, omega arith)
      | inr new ↦ rw new (
          let rest = walk query next n (add item.0 seen) (next item.0) c' in
          Yields-more n seen item new rest.0 rest.1 (ih (add item.0 seen) (next item.0) c'))
    ]

-- What a walk yields has no key twice and none that was seen, whatever the daemon answers, and it is
-- no more than its consumer takes.
pub walk-Fresh :
    {A : Type 0} (query : Text → Exec Client (Option (Keyed A))) (next : Text → Text) (n : ℕ)
    (seen : TextSet) (selector : Text) (c : Client) (items : List (Keyed A))
    → outcome (walk query next n seen selector) c ≡ ok items
    → Fresh seen (keys items) × length items ≤ n
walk-Fresh query next n seen selector c items h =
    subst (Yields n seen) h (walk-Yields query next n seen selector c)
