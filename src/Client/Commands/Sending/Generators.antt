-- ===== src/Client/Commands/Sending/Generators.antt =====
-- How many commands the generators of wpa_ctrl/client.py send.
use wpa_ctrl_py.Base.{ℕ, sym, [], ◌∷◌, Option}
use mathlib.Core.Path.{subst}
use wpa_ctrl_py.Text.{Text, codes}
use wpa_ctrl_py.Text.Number.{prefixed_hex}
use wpa_ctrl_py.Replies.Parse.{parse_variables}
use wpa_ctrl_py.Replies.Address.{addressed_variables}
use wpa_ctrl_py.Client.Commands.Station.{bss}
use wpa_ctrl_py.Transport.Exec.{after}
use wpa_ctrl_py.Client.State.{Client}
use wpa_ctrl_py.Client.Commands.Wording.{map_option, optional}
use wpa_ctrl_py.Client.Commands.Walks.{
  with_id, addressed, keyed_address, iter_bss, iter_stations, iter_p2p_peers,
}
use wpa_ctrl_py.Client.Commands.Walks.Pattern.{
  bss_query, keyed_bss, after_bss, after_station, after_peer, bss_loop-walk, stations_loop-walk,
  peers_loop-walk,
}
use wpa_ctrl_py.Client.Commands.Pages.{network_pages, iter_networks}
use wpa_ctrl_py.Client.Commands.Sending.{
  SendsAtMost, after-pure, ask-SendsAtMost, Thrifty, walk-Thrifty,
}
use wpa_ctrl_py.Client.Commands.Sending.Pages.{pages-SendsAtMost, networks-Thrifty}

bss-SendsAtMost :
    (selector : Text) (mask : Option ℕ) (c : Client)
    → SendsAtMost 1 c (after (bss_query mask selector) c)
bss-SendsAtMost selector mask c =
    let items = codes "BSS" ∷ selector ∷ optional "MASK=" (map_option prefixed_hex mask) in
    let run = bss selector mask c in
    subst (SendsAtMost 1 c) (sym (after-pure run.0 keyed_bss run.1))
      (ask-SendsAtMost items parse_variables c)

addressed-SendsAtMost :
    (command : Text) (c : Client) → SendsAtMost 1 c (after (addressed command) c)
addressed-SendsAtMost command c =
    ask-SendsAtMost (command ∷ []) (λ reply. map_option keyed_address (addressed_variables reply)) c

-- A consumer that takes n items from one of the generators, BSSs, stations, peers or networks, makes
-- the client send at most n commands, whatever the daemon answers, and whether it raises or not; and
-- where the generator ends before, at most one command more than it yields items. The walk over the
-- networks keeps to the bound with any number of turns.
pub iter-SendsAtMost :
    (n turns : ℕ) (mask : Option ℕ) (c : Client)
    → Thrifty n c (iter_bss n mask c)
      × Thrifty n c (iter_stations n c)
      × Thrifty n c (iter_p2p_peers n c)
      × Thrifty n c (iter_networks n c)
      × SendsAtMost n c (after (network_pages turns n [] (codes "LIST_NETWORKS")) c)
unfolding iter_bss iter_stations iter_p2p_peers
iter-SendsAtMost n turns mask c =
    let mask' = map_option with_id mask in
    (
      subst (Thrifty n c) (sym (bss_loop-walk mask' n [] (codes "FIRST") c)) (
          walk-Thrifty (bss_query mask') after_bss (λ selector d. bss-SendsAtMost selector mask' d)
            n [] (codes "FIRST") c),
      subst (Thrifty n c) (sym (stations_loop-walk n [] (codes "STA-FIRST") c))
          (walk-Thrifty addressed after_station addressed-SendsAtMost n [] (codes "STA-FIRST") c),
      subst (Thrifty n c) (sym (peers_loop-walk n [] (codes "P2P_PEER FIRST") c))
          (walk-Thrifty addressed after_peer addressed-SendsAtMost n [] (codes "P2P_PEER FIRST") c),
      networks-Thrifty n c,
      pages-SendsAtMost turns n [] (codes "LIST_NETWORKS") c,
    )
