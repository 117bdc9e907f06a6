-- ===== src/Security/Groups.antt =====
-- `parse_security` (wpa_ctrl/security.py) on a flags column that is made of groups.
pub mod Offers
use wpa_ctrl_py.Base.{
  ℕ, ◌+◌, ◌≡◌, ◌≢◌, refl, sym, ap, ◌∙◌, inl, inr, Bool, true, false, not, ◌&&◌, ◌||◌, List, [], ◌∷◌,
  ◌++◌, append_assoc, Option, none, some, arith, if◌then◌else◌, length, All, All-append, any,
  is_empty,
}
use wpa_ctrl_py.Text.{Text, Partition, starts_with, join, split, partition, text_eq, codes}
use wpa_ctrl_py.Text.Laws.{Lacks, partition-append, split-append}
use wpa_ctrl_py.TextSet
use wpa_ctrl_py.TextSet.{member}
use wpa_ctrl_py.TextSet.Laws.{member-All, member-add, member-update}
use wpa_ctrl_py.Security.Suites.{scan_names, scan_key_mgmt}
use wpa_ctrl_py.Security.Suites.Reading.{IsSuite, IsTail, scan_key_mgmt-join}
use wpa_ctrl_py.Security.{
  Security, protocol_names, Suite, find_protocol, add_suite, add_group, add_groups, no_security,
  open_network, parse_security, wep,
}

-- A group of the column: a protocol with its key management names and what follows them, a protocol
-- with a body that begins with no known name, or another flag.
pub data Group : Type 0 where
  suite : Text → Text → List Text → Text → Group
  unnamed : Text → Text → Group
  flag : Text → Group

abbrev pub group_text : Group → Text
group_text (suite protocol name names tail) =
    protocol ++ b'-' ∷ (join (b'+' ∷ []) (name ∷ names) ++ tail)
group_text (unnamed protocol body) = protocol ++ b'-' ∷ body
group_text (flag text) = text

-- The column, each group in brackets.
abbrev pub render : List Group → Text
render [] = []
render (g ∷ groups) = b'[' ∷ (group_text g ++ b']' ∷ render groups)

abbrev pub IsGroup : Group → Type 0
IsGroup (suite protocol name names tail) =
    (member protocol protocol_names ≡ true)
    × All IsSuite (name ∷ names)
    × IsTail tail
    × Lacks b']' tail
IsGroup (unnamed protocol body) =
    (member protocol protocol_names ≡ true) × (scan_key_mgmt body ≡ []) × Lacks b']' body
IsGroup (flag text) =
    (is_empty text ≡ false) × (find_protocol protocol_names text ≡ none) × Lacks b']' text

protocol_found :
    (protocol body : Text)
    → member protocol protocol_names ≡ true
    → find_protocol protocol_names (protocol ++ b'-' ∷ body)
      ≡ some (record { protocol = protocol; body = body })
protocol_found protocol body h =
    member-All
      (λ p.
        find_protocol protocol_names (p ++ b'-' ∷ body)
        ≡ some (record { protocol = p; body = body }))
      protocol protocol_names h
      (unfold find_protocol starts_with in (refl, (refl, (refl, (refl, tt)))))

names_Lack : All (Lacks b']') scan_names
names_Lack = omega arith

protocols_Lack : All (Lacks b']') protocol_names
protocols_Lack = omega arith

join-Lacks : (names : List Text) → All IsSuite names → Lacks b']' (join (b'+' ∷ []) names)
unfolding join
join-Lacks [] h = tt
join-Lacks (n ∷ []) h = member-All (Lacks b']') n scan_names h.0 names_Lack
join-Lacks (n ∷ m ∷ names) h =
    All-append (λ c. c ≢ b']') n _ (member-All (Lacks b']') n scan_names h.0 names_Lack)
      (omega arith, join-Lacks (m ∷ names) h.1)

group_text-Lacks : (g : Group) → IsGroup g → Lacks b']' (group_text g)
group_text-Lacks (suite protocol name names tail) h =
    All-append (λ c. c ≢ b']') protocol _
      (member-All (Lacks b']') protocol protocol_names h.0 protocols_Lack)
      (
        omega arith,
        All-append (λ c. c ≢ b']') (join (b'+' ∷ []) (name ∷ names)) tail
            (join-Lacks (name ∷ names) h.1) h.3,
      )
group_text-Lacks (unnamed protocol body) h =
    All-append (λ c. c ≢ b']') protocol _
      (member-All (Lacks b']') protocol protocol_names h.0 protocols_Lack) (omega arith, h.2)
group_text-Lacks (flag text) h = h.2

-- What a group adds.
abbrev pub add_to : Group → Security → Security
add_to (suite protocol name names tail) s = record s {
  protocols = TextSet.add protocol s.protocols;
  key_mgmt = TextSet.update (name ∷ names) s.key_mgmt;
}
add_to (unnamed protocol body) s = record s { protocols = TextSet.add protocol s.protocols }
add_to (flag text) s = record s { flags = TextSet.add text s.flags }

abbrev pub add_all : List Group → Security → Security
add_all [] s = s
add_all (g ∷ groups) s = add_all groups (add_to g s)

is_empty-middle : (a : Text) (c : ℕ) (b : Text) → is_empty (a ++ c ∷ b) ≡ false
is_empty-middle [] c b = refl
is_empty-middle (d ∷ a) c b = refl

add_group-text : (g : Group) (s : Security) → IsGroup g → add_group (group_text g) s ≡ add_to g s
unfolding add_group
add_group-text (suite protocol name names tail) s h = rw (
  is_empty-middle protocol b'-' _,
  protocol_found protocol _ h.0,
  scan_key_mgmt-join name names tail h.1 h.2,
)
add_group-text (unnamed protocol body) s h =
    rw (is_empty-middle protocol b'-' _, protocol_found protocol _ h.0, h.1)
      (unfold TextSet.update in refl)
add_group-text (flag text) s h = rw (h.0, h.1)

bracket_ne : ◌≢◌ {A = ℕ} b'[' b']'
bracket_ne = omega arith

add_groups-render :
    (groups : List Group) (s : Security)
    → All IsGroup groups
    → add_groups (split b']' (render groups)) s ≡ add_all groups s
unfolding add_groups
add_groups-render [] s h = unfold split partition add_group in refl
add_groups-render (g ∷ groups) s h =
    ap (λ pieces. add_groups pieces s)
      (split-append b']' (b'[' ∷ group_text g) (render groups) (bracket_ne, group_text-Lacks g h.0))
    ∙ ap (λ q. add_groups (split b']' (render groups)) (add_group q s))
        (ap (λ (q : Partition). q.after) (partition-append b'[' [] (group_text g) tt))
    ∙ rw (add_group-text g s h.0) (add_groups-render groups (add_to g s) h.1)

-- A column of groups, each of which is a protocol with known names, a protocol with a body that
-- begins with none, or another flag, without a closing bracket, is read group by group: each
-- protocol and each key management name is found, and every other flag is kept as it is.
pub parse_security-render :
    (groups : List Group)
    → All IsGroup groups
    → parse_security (render groups) ≡ add_all groups no_security
unfolding parse_security
parse_security-render groups h = add_groups-render groups no_security h
