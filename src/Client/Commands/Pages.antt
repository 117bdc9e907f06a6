-- ===== src/Client/Commands/Pages.antt =====
-- `iter_networks` of wpa_ctrl/client.py, by a consumer that takes at most so many networks.
pub mod Distinct
pub mod Enough
use wpa_ctrl_py.Base.{
  ◌-◌, leb, take, ℕ, zero, suc, ◌≡◌, ◌≤◌, inl, inr, Bool, false, ◌||◌, List, [], ◌∷◌, ◌++◌, arith,
  if◌then◌else◌, Bool-cases, is_empty, length, All,
}
use mathlib.Core.Path.{subst}
use wpa_ctrl_py.Base.Int.{ℤ}
use wpa_ctrl_py.Result.{Result, ok, err, endless}
use wpa_ctrl_py.Text.{Text, codes}
use wpa_ctrl_py.Text.Number.{decimal_ℤ}
use wpa_ctrl_py.Replies.Signal.{int_eq}
use wpa_ctrl_py.Replies.Rows.{Network, parse_networks}
use wpa_ctrl_py.Transport.Exec.{Exec, ◌>>=◌, raise, pure, outcome, continue}
use wpa_ctrl_py.Client.State.{Client}
use wpa_ctrl_py.Client.Commands.Wording.{ask}

-- `id in seen`.
unfoldable pub was_seen : ℤ → List ℤ → Bool
was_seen id [] = false
was_seen id (old ∷ seen) = int_eq old id || was_seen id seen

-- The comprehension: the set is that of the pages before.
unfoldable pub unseen : List ℤ → List Network → List Network
unseen seen [] = []
unseen seen (n ∷ networks) =
    let rest = unseen seen networks in if was_seen n.id seen then rest else n ∷ rest

abbrev pub ids : List Network → List ℤ
ids [] = []
ids (n ∷ networks) = n.id ∷ ids networks

-- `LIST_NETWORKS LAST_ID={new[-1].id}`; the page is not empty.
abbrev pub next_command : List Network → Text
next_command [] = codes "LIST_NETWORKS"
next_command (n ∷ []) = codes "LIST_NETWORKS LAST_ID=" ++ decimal_ℤ n.id
next_command (n ∷ m ∷ networks) = next_command (m ∷ networks)

-- The loop, by the pages of which it yields the networks: the consumer takes so many more, and once
-- it has them no command follows. The first number is fuel: each page brings a network, so the
-- networks that are wanted are turns enough.
unfoldable pub network_pages : ℕ → ℕ → List ℤ → Text → Exec Client (List (List Network))
network_pages turns zero seen command = pure []
network_pages zero (suc wanted) seen command = raise endless
network_pages (suc turns) (suc wanted) seen command = do
  page ← ask (command ∷ []) parse_networks
  let new = unseen seen page in
      if is_empty new
      then pure []
      else if leb (suc wanted) (length new)
      then pure (take (suc wanted) new ∷ [])
      else (network_pages turns (suc wanted - length new) (ids new ++ seen) (next_command new)
          >>= λ rest. pure (new ∷ rest))

-- The pages, one behind the other.
abbrev pub flatten : List (List Network) → List Network
flatten [] = []
flatten (page ∷ pages) = page ++ flatten pages

unfoldable pub iter_networks : ℕ → Exec Client (List Network)
iter_networks n = network_pages n n [] (codes "LIST_NETWORKS") >>= λ pages. pure (flatten pages)
