-- ===== src/Client/Commands/Serving.antt =====
-- The generators of wpa_ctrl/client.py over a daemon that hands out its items one after another.
use wpa_ctrl_py.Base.{
  ◌∙◌, ◌++◌, ℕ, zero, suc, ◌≡◌, refl, ap, List, [], ◌∷◌, Option, none, some, take,
}
use wpa_ctrl_py.Result.{Result, ok}
use wpa_ctrl_py.Text.{Text, codes}
use wpa_ctrl_py.Dict
use wpa_ctrl_py.Dict.{Dict}
use wpa_ctrl_py.Replies.Address.{Addressed}
use wpa_ctrl_py.Client.Commands.Station.{bss}
use wpa_ctrl_py.TextSet.{TextSet, add}
use wpa_ctrl_py.Transport.Exec.{Exec, pure, outcome, continue}
use wpa_ctrl_py.Client.State.{Client}
use wpa_ctrl_py.Client.Commands.Walks.{Keyed, addressed, iter_stations, iter_p2p_peers}
use wpa_ctrl_py.Client.Commands.Walks.Pattern.{
  walk, after_station, after_peer, stations_loop-walk, peers_loop-walk,
}
use wpa_ctrl_py.Client.Commands.Walks.Distinct.{Fresh, keys}

-- Asked from a selector on, and then for what follows each key, the daemon answers these items and
-- then that there is no more.
data Serves {A : Type 0} (query : Text → Exec Client (Option (Keyed A))) (next : Text → Text)
    : Text → Client → List (Keyed A) → Type 0 where
  ends :
      {selector : Text} {c c' : Client}
      → query selector c ≡ (ok none, c')
      → Serves query next selector c []
  gives :
      {selector : Text} {c c' : Client} {item : Keyed A} {items : List (Keyed A)}
      → query selector c ≡ (ok (some item), c')
      → Serves query next (next item.0) c' items
      → Serves query next selector c (item ∷ items)

walk-Serves :
    {A : Type 0} (query : Text → Exec Client (Option (Keyed A))) (next : Text → Text) (n : ℕ)
    (seen : TextSet) (selector : Text) (c : Client) (items : List (Keyed A))
    → Serves query next selector c items
    → Fresh seen (keys items)
    → outcome (walk query next n seen selector) c ≡ ok (take n items)
unfolding walk
walk-Serves query next zero seen selector c items serves fresh = refl
walk-Serves query next (suc n) seen selector c [] (ends e) fresh = rw (e, outcome) refl
walk-Serves {A} query next (suc n) seen selector c (item ∷ items) (gives {c' = d} e serves) fresh =
    let rest = walk query next n (add item.0 seen) (next item.0) d in
    let ih = walk-Serves query next n (add item.0 seen) (next item.0) d items serves fresh.1 in
    rw (e, outcome, fresh.0)
      (ap
        (λ (r : Result (List (Keyed A))).
          outcome (continue r (λ (more : List (Keyed A)). pure (item ∷ more))) rest.1)
        ih)

-- Asked for a BSS from a selector on, the daemon answers these, each under the id that the next
-- command names, and then one without an id.
pub data ServesBss (mask : Option ℕ) : Text → Client → List (Keyed Dict) → Type 0 where
  no_more :
      {selector : Text} {c c' : Client} {info : Dict}
      → bss selector mask c ≡ (ok info, c')
      → Dict.get (codes "id") info ≡ none
      → ServesBss mask selector c []
  one_more :
      {selector : Text} {c c' : Client} {info : Dict} {id : Text} {items : List (Keyed Dict)}
      → bss selector mask c ≡ (ok info, c')
      → Dict.get (codes "id") info ≡ some id
      → ServesBss mask (codes "NEXT-" ++ id) c' items
      → ServesBss mask selector c ((id, info) ∷ items)

-- Given this command, and then the prefix with the address of the last item, the daemon answers these
-- items and then none.
pub data ServesAddressed (prefix : Text) : Text → Client → List (Keyed Addressed) → Type 0 where
  no_more :
      {command : Text} {c c' : Client}
      → addressed command c ≡ (ok none, c')
      → ServesAddressed prefix command c []
  one_more :
      {command : Text} {c c' : Client} {item : Keyed Addressed} {items : List (Keyed Addressed)}
      → addressed command c ≡ (ok (some item), c')
      → ServesAddressed prefix (prefix ++ item.0) c' items
      → ServesAddressed prefix command c (item ∷ items)

ServesAddressed-Serves :
    (prefix command : Text) (c : Client) (items : List (Keyed Addressed))
    → ServesAddressed prefix command c items
    → Serves addressed (λ address. prefix ++ address) command c items
ServesAddressed-Serves prefix command c items (ServesAddressed.no_more e) = ends e
ServesAddressed-Serves prefix command c items
      (ServesAddressed.one_more {c' = d} {item} {items = rest} e more) =
    gives e (ServesAddressed-Serves prefix (prefix ++ item.0) d rest more)

-- Where the daemon, given the first command and then the next one behind each address, answers
-- stations, or peers, of different addresses and then none, `iter_stations`, or `iter_p2p_peers`,
-- yields all of them in this order, or as many as its consumer takes.
pub iter_addressed-Serves :
    (n : ℕ) (c : Client) (stations peers : List (Keyed Addressed))
    → ServesAddressed (codes "STA-NEXT ") (codes "STA-FIRST") c stations
    → Fresh [] (keys stations)
    → ServesAddressed (codes "P2P_PEER NEXT-") (codes "P2P_PEER FIRST") c peers
    → Fresh [] (keys peers)
    → (outcome (iter_stations n) c ≡ ok (take n stations))
      × (outcome (iter_p2p_peers n) c ≡ ok (take n peers))
unfolding iter_stations iter_p2p_peers
iter_addressed-Serves n c stations peers serves fresh serves' fresh' =
    let first = λ (run : Result (List (Keyed Addressed)) × Client). run.0 in
    (
      ap first (stations_loop-walk n [] (codes "STA-FIRST") c)
          ∙ walk-Serves addressed after_station n [] (codes "STA-FIRST") c stations
              (ServesAddressed-Serves (codes "STA-NEXT ") (codes "STA-FIRST") c stations serves)
              fresh,
      ap first (peers_loop-walk n [] (codes "P2P_PEER FIRST") c)
          ∙ walk-Serves addressed after_peer n [] (codes "P2P_PEER FIRST") c peers
              (ServesAddressed-Serves (codes "P2P_PEER NEXT-") (codes "P2P_PEER FIRST") c peers
                serves')
              fresh',
    )
