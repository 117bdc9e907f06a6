-- ===== src/Security/Groups/Offers.antt =====
-- The predicates of `Security` (wpa_ctrl/security.py) on what `parse_security` reads.
use wpa_ctrl_py.Base.{◌≡◌, refl, ◌∙◌, Bool, true, not, ◌&&◌, ◌||◌, List, [], ◌∷◌, arith, All, any}
use wpa_ctrl_py.Text.{Text, text_eq, codes}
use wpa_ctrl_py.TextSet.{member}
use wpa_ctrl_py.TextSet.Laws.{member-add, any-update, is_empty-add}
use wpa_ctrl_py.Security.{
  Security, names_suite, wep, open_network, psk, sae, transition_mode, sae_only, parse_security,
  no_security,
}
use wpa_ctrl_py.Security.Groups.{
  Group, suite, unnamed, flag, render, IsGroup, add_to, add_all, parse_security-render,
}

-- What keeps a group's access point from being open: a protocol, or WEP.
abbrev pub secures : Group → Bool
secures (suite protocol name names tail) = true
secures (unnamed protocol body) = true
secures (flag text) = text_eq text (codes "WEP")

add_to-open :
    (g : Group) (s : Security) → open_network (add_to g s) ≡ (open_network s && not (secures g))
unfolding open_network wep
add_to-open (suite protocol name names tail) s = rw is_empty-add (ground arith)
add_to-open (unnamed protocol body) s = rw is_empty-add (ground arith)
add_to-open (flag text) s = rw member-add (ground arith)

add_all-open :
    (groups : List Group) (s : Security)
    → open_network (add_all groups s) ≡ (open_network s && not (any secures groups))
add_all-open [] s = ground arith
add_all-open (g ∷ groups) s = add_all-open groups (add_to g s) ∙ rw add_to-open (ground arith)

-- For a column of such groups, an access point reads as open exactly when no group names a
-- protocol and none is WEP: a protocol whose key management is not known is not open either.
pub open_network-render :
    (groups : List Group)
    → All IsGroup groups
    → open_network (parse_security (render groups)) ≡ not (any secures groups)
open_network-render groups h =
    rw (parse_security-render groups h)
      (add_all-open groups no_security ∙ (unfold open_network wep member in refl))

abbrev pub names_of : Group → List Text
names_of (suite protocol name names tail) = name ∷ names
names_of (unnamed protocol body) = []
names_of (flag text) = []

-- Some group names a suite that the test selects.
abbrev pub offers : (Text → Bool) → List Group → Bool
offers test = any (λ g. any test (names_of g))

add_to-any :
    (test : Text → Bool) (g : Group) (s : Security)
    → any test (add_to g s).key_mgmt ≡ (any test (names_of g) || any test s.key_mgmt)
add_to-any test (suite protocol name names tail) s = any-update test (name ∷ names) s.key_mgmt
add_to-any test (unnamed protocol body) s = refl
add_to-any test (flag text) s = refl

add_all-any :
    (test : Text → Bool) (groups : List Group) (s : Security)
    → any test (add_all groups s).key_mgmt ≡ (offers test groups || any test s.key_mgmt)
add_all-any test [] s = refl
add_all-any test (g ∷ groups) s =
    add_all-any test groups (add_to g s) ∙ rw (add_to-any test g s) (ground arith)

key_mgmt-render :
    (test : Text → Bool) (groups : List Group)
    → All IsGroup groups
    → any test (parse_security (render groups)).key_mgmt ≡ offers test groups
key_mgmt-render test groups h =
    rw (parse_security-render groups h) (add_all-any test groups no_security ∙ ground arith)

-- For a column of such groups, transition mode is read exactly when the groups name a PSK suite
-- and an SAE suite, in one group or in two; SAE alone is read exactly when they name only the
-- latter.
pub transition_mode-render :
    (groups : List Group)
    → All IsGroup groups
    → (transition_mode (parse_security (render groups))
        ≡ (offers (names_suite (codes "PSK")) groups && offers (names_suite (codes "SAE")) groups))
      × (sae_only (parse_security (render groups)) ≡ (
          offers (names_suite (codes "SAE")) groups
          && not (offers (names_suite (codes "PSK")) groups)))
unfolding transition_mode sae_only psk sae
transition_mode-render groups h = (
  rw (
    key_mgmt-render (names_suite (codes "PSK")) groups h,
    key_mgmt-render (names_suite (codes "SAE")) groups h,
  ),
  rw (
    key_mgmt-render (names_suite (codes "PSK")) groups h,
    key_mgmt-render (names_suite (codes "SAE")) groups h,
  ),
)
