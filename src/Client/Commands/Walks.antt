-- ===== src/Client/Commands/Walks.antt =====
-- The generators of wpa_ctrl/client.py that ask for one item after another, by a consumer that takes
-- at most so many: `iter_bss`, `iter_stations` and `iter_p2p_peers`.
pub mod Pattern
pub mod Distinct
use wpa_ctrl_py.Base.{
  arith, ◌≤◌, length, ℕ, zero, suc, ◌+◌, ◌%◌, ◌≡◌, inl, inr, false, List, [], ◌∷◌, ◌++◌, Option,
  none, some, ◌==◌, if◌then◌else◌, Bool-cases,
}
use mathlib.Core.Path.{subst}
use wpa_ctrl_py.Result.{Result, ok, err}
use wpa_ctrl_py.Text.{Text, codes}
use wpa_ctrl_py.Dict
use wpa_ctrl_py.Dict.{Dict}
use wpa_ctrl_py.TextSet.{TextSet, member, add}
use wpa_ctrl_py.Replies.Address.{Addressed, addressed_variables}
use wpa_ctrl_py.Transport.Exec.{continue, Exec, ◌>>=◌, pure, outcome}
use wpa_ctrl_py.Client.State.{Client}
use wpa_ctrl_py.Client.Commands.Wording.{ask, map_option}
use wpa_ctrl_py.Client.Commands.Station.{bss}

-- An item with the key that the walk goes by.
abbrev pub Keyed : Type 0 → Type 0
Keyed A = Text × A

-- `mask |= BssMask.ID`.
abbrev pub with_id : ℕ → ℕ
with_id mask = if mask % 2 == 0 then mask + 1 else mask

-- The loop of `iter_bss`: each round but the last yields an item, of which the consumer takes so many
-- more.
unfoldable pub bss_loop : Option ℕ → ℕ → TextSet → Text → Exec Client (List (Keyed Dict))
bss_loop mask zero seen selector = pure []
bss_loop mask (suc n) seen selector = do
  info ← bss selector mask
  elim (Dict.get (codes "id") info) [
    | none ↦ pure []
    | some id ↦
        if member id seen
        then pure []
        else (bss_loop mask n (add id seen) (codes "NEXT-" ++ id) >>= λ rest.
            pure ((id, info) ∷ rest))
  ]

unfoldable pub iter_bss : ℕ → Option ℕ → Exec Client (List (Keyed Dict))
iter_bss n mask = bss_loop (map_option with_id mask) n [] (codes "FIRST")

abbrev pub keyed_address : Addressed → Keyed Addressed
keyed_address a = (a.address, a)

-- `_addressed_variables(self.request(command))`.
abbrev pub addressed : Text → Exec Client (Option (Keyed Addressed))
addressed command =
    ask (command ∷ []) (λ reply. map_option keyed_address (addressed_variables reply))

-- The loop of `iter_stations`.
unfoldable pub stations_loop : ℕ → TextSet → Text → Exec Client (List (Keyed Addressed))
stations_loop zero seen command = pure []
stations_loop (suc n) seen command = do
  found ← addressed command
  elim found [
    | none ↦ pure []
    | some item ↦
        if member item.0 seen
        then pure []
        else (stations_loop n (add item.0 seen) (codes "STA-NEXT " ++ item.0) >>= λ rest.
            pure (item ∷ rest))
  ]

unfoldable pub iter_stations : ℕ → Exec Client (List (Keyed Addressed))
iter_stations n = stations_loop n [] (codes "STA-FIRST")

-- The loop of `iter_p2p_peers`.
unfoldable pub peers_loop : ℕ → TextSet → Text → Exec Client (List (Keyed Addressed))
peers_loop zero seen command = pure []
peers_loop (suc n) seen command = do
  found ← addressed command
  elim found [
    | none ↦ pure []
    | some item ↦
        if member item.0 seen
        then pure []
        else (peers_loop n (add item.0 seen) (codes "P2P_PEER NEXT-" ++ item.0) >>= λ rest.
            pure (item ∷ rest))
  ]

unfoldable pub iter_p2p_peers : ℕ → Exec Client (List (Keyed Addressed))
iter_p2p_peers n = peers_loop n [] (codes "P2P_PEER FIRST")
