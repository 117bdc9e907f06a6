-- ===== src/Tests/Security.antt =====
-- Flags columns of wpa_ctrl/security.py.
use mathlib.Core.List.Perm
use wpa_ctrl_py.Security.Views.{offered, answers}
use wpa_ctrl_py.Security.Adding.{column}
use wpa_ctrl_py.Security.Order.{parse_security-Perm}
use wpa_ctrl_py.Base.{◌≡◌, refl, not, any, List, [], ◌∷◌, arith, All}
use wpa_ctrl_py.Text.{Text, codes, text_eq, starts_with}
use wpa_ctrl_py.TextSet.{member}
use wpa_ctrl_py.Security.{parse_security, no_security, open_network, find_protocol}
use wpa_ctrl_py.Security.Suites.{scan_key_mgmt, scan_loop, find_name, behind_name}
use wpa_ctrl_py.Security.Suites.Reading.{IsSuite, IsTail, ciphers}
use wpa_ctrl_py.Security.Groups.{
  unnamed, Group, suite, flag, IsGroup, render, add_all, parse_security-render,
}
use wpa_ctrl_py.Security.Groups.Offers.{secures, open_network-render}

abbrev ciphers_tail : Text
ciphers_tail = codes "-CCMP"

ciphers_tail-IsTail : IsTail ciphers_tail
ciphers_tail-IsTail = ciphers b'C' (codes "CMP") (omega arith) (omega arith) (omega arith)

suites-IsSuite : All IsSuite (codes "PSK" ∷ codes "SAE" ∷ [])
unfolding member text_eq
suites-IsSuite = (refl, (refl, tt))

-- `[WPA2-PSK+SAE-CCMP][RSN-NEW][ESS]`.
abbrev groups : List Group
groups =
    suite (codes "WPA2") (codes "PSK") (codes "SAE" ∷ []) ciphers_tail
    ∷ unnamed (codes "RSN") (codes "NEW")
    ∷ flag (codes "ESS")
    ∷ []

scan_key_mgmt-new : scan_key_mgmt (codes "NEW") ≡ []
unfolding scan_key_mgmt scan_loop find_name behind_name
scan_key_mgmt-new = refl

groups-IsGroup : All IsGroup groups
unfolding member text_eq find_protocol starts_with
groups-IsGroup = (
  (
    refl,
    suites-IsSuite,
    ciphers_tail-IsTail,
    (omega arith, (omega arith, (omega arith, (omega arith, (omega arith, tt))))),
  ),
  (
    (refl, scan_key_mgmt-new, (omega arith, (omega arith, (omega arith, tt)))),
    ((refl, refl, (omega arith, (omega arith, (omega arith, tt)))), tt),
  ),
)

parse_security-render_example : parse_security (render groups) ≡ add_all groups no_security
parse_security-render_example = parse_security-render groups groups-IsGroup

open_network-render_example :
    open_network (parse_security (render groups)) ≡ not (any secures groups)
open_network-render_example = open_network-render groups groups-IsGroup

-- Two groups, in both orders; the second is no protocol.
abbrev wpa2 : Text
wpa2 = codes "WPA2-X"

abbrev ess : Text
ess = codes "ESS"

parse_security-Perm_example :
    (offered (parse_security (column (wpa2 ∷ ess ∷ [])))
      ≡ offered (parse_security (column (ess ∷ wpa2 ∷ []))))
    × (answers (parse_security (column (wpa2 ∷ ess ∷ [])))
        ≡ answers (parse_security (column (ess ∷ wpa2 ∷ []))))
parse_security-Perm_example =
    parse_security-Perm (wpa2 ∷ ess ∷ []) (ess ∷ wpa2 ∷ []) (Perm.swap ess wpa2 []) (omega arith)
      (omega arith)
