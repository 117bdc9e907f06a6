-- ===== src/Security/Adding.antt =====
-- What the groups of a flags column add to the sets of `parse_security` of wpa_ctrl/security.py.
use wpa_ctrl_py.Base.{
  if◌then◌else◌, ◌≡◌, refl, ap, ◌∙◌, Bool, ◌||◌, List, [], ◌∷◌, ◌++◌, Option, none, some, any, All,
  is_empty, arith,
}
use wpa_ctrl_py.Text.{Text, Partition, partition, split}
use wpa_ctrl_py.Text.Laws.{Lacks, partition-append, split-append}
use wpa_ctrl_py.TextSet
use wpa_ctrl_py.TextSet.{TextSet, member}
use wpa_ctrl_py.TextSet.Laws.{member-update}
use wpa_ctrl_py.Security.Suites.{scan_key_mgmt}
use wpa_ctrl_py.Security.{
  Security, Suite, find_protocol, protocol_names, add_suite, add_group, add_groups, no_security,
  parse_security,
}

-- A column: each text in brackets.
abbrev pub column : List Text → Text
column [] = []
column (g ∷ groups) = b'[' ∷ (g ++ b']' ∷ column groups)

abbrev pub add_all : List Text → Security → Security
add_all [] s = s
add_all (g ∷ groups) s = add_all groups (add_group g s)

add_groups-column :
    (groups : List Text) (s : Security)
    → All (Lacks b']') groups
    → add_groups (split b']' (column groups)) s ≡ add_all groups s
unfolding add_groups
add_groups-column [] s h = unfold split partition add_group in refl
add_groups-column (g ∷ groups) s h =
    let text = b'[' ∷ g in
    let lacks : Lacks b']' text = (omega arith, h.0) in
    ap (λ (pieces : List Text). add_groups pieces s) (split-append b']' text (column groups) lacks)
    ∙ ap (λ (p : Partition). add_groups (split b']' (column groups)) (add_group p.after s))
        (partition-append b'[' [] g tt)
    ∙ add_groups-column groups (add_group g s) h.1

-- What a group adds to each of the sets.
pub record Part : Type 0 where
  pub names : List Text
  pub protocols : List Text
  pub others : List Text

abbrev pub suite_part : Text → Option Suite → Part
suite_part g none = record { names = []; protocols = []; others = g ∷ [] }
suite_part g (some suite) = record {
  names = scan_key_mgmt suite.body;
  protocols = suite.protocol ∷ [];
  others = [];
}

abbrev pub part_of : Text → Part
part_of g =
    if is_empty g
    then record { names = []; protocols = []; others = [] }
    else suite_part g (find_protocol protocol_names g)

abbrev pub add_part : Part → Security → Security
add_part part s = record {
  key_mgmt = TextSet.update part.names s.key_mgmt;
  protocols = TextSet.update part.protocols s.protocols;
  flags = TextSet.update part.others s.flags;
}

add_group-part : (g : Text) (s : Security) → add_group g s ≡ add_part (part_of g) s
unfolding add_group TextSet.update
add_group-part [] s = refl
add_group-part (c ∷ g) s = go (find_protocol protocol_names (c ∷ g))
  where
    go : (found : Option Suite) → add_suite (c ∷ g) found s ≡ add_part (suite_part (c ∷ g) found) s
    go none = refl
    go (some suite) = refl

pub parse_security-column :
    (groups : List Text)
    → All (Lacks b']') groups
    → parse_security (column groups) ≡ add_all groups no_security
unfolding parse_security
parse_security-column groups h = add_groups-column groups no_security h

-- One of the three sets, and what a group adds to it.
module _ (set_of : Security → TextSet) (texts_of : Part → List Text)
    (adds : (part : Part) (s : Security)
      → set_of (add_part part s) ≡ TextSet.update (texts_of part) (set_of s)) where
  abbrev pub gives : Text → Text → Bool
  gives x g = member x (texts_of (part_of g))

  pub member-add_all :
      (x : Text) (groups : List Text) (s : Security)
      → member x (set_of (add_all groups s)) ≡ (any (gives x) groups || member x (set_of s))
  member-add_all x [] s = refl
  member-add_all x (g ∷ groups) s =
      let added =
        ap (λ (t : Security). member x (set_of t)) (add_group-part g s)
        ∙ ap (member x) (adds (part_of g) s)
        ∙ member-update x (texts_of (part_of g)) (set_of s) in
      member-add_all x groups (add_group g s) ∙ rw added (ground arith)
