-- ===== src/Security/Suites.antt =====
-- `_SCAN_KEY_MGMT` and `_scan_key_mgmt` of wpa_ctrl/security.py.
pub mod Names
pub mod Reading
use wpa_ctrl_py.Base.{
  ℕ, zero, suc, Bool, true, false, ◌||◌, List, [], ◌∷◌, ◌++◌, Option, none, some, ◌==◌, ◌≡◌, refl,
  if◌then◌else◌, length, leb,
}
use wpa_ctrl_py.Text.{Text, codes}

-- The names in the order of the source.
abbrev declared_names : List Text
declared_names =
    codes "EAP"
    ∷ codes "PSK"
    ∷ codes "SAE"
    ∷ codes "OWE"
    ∷ codes "DPP"
    ∷ codes "None"
    ∷ codes "?"
    ∷ codes "FT/EAP"
    ∷ codes "FT/PSK"
    ∷ codes "FT/SAE"
    ∷ codes "EAP-SHA256"
    ∷ codes "PSK-SHA256"
    ∷ codes "EAP-SHA384"
    ∷ codes "EAP-SUITE-B"
    ∷ codes "EAP-SUITE-B-192"
    ∷ codes "SAE-EXT-KEY"
    ∷ codes "FT/SAE-EXT-KEY"
    ∷ codes "FILS-SHA256"
    ∷ codes "FILS-SHA384"
    ∷ codes "FT/FILS-SHA256"
    ∷ codes "FT/FILS-SHA384"
    ∷ []

-- `sorted(names, key=len, reverse=True)`, which keeps the order of names of one length.
insert_name : Text → List Text → List Text
insert_name name [] = name ∷ []
insert_name name (x ∷ names) =
    if leb (length x) (length name) then name ∷ x ∷ names else x ∷ insert_name name names

longest_first : List Text → List Text
unfolding insert_name
longest_first [] = []
longest_first (x ∷ names) = insert_name x (longest_first names)

-- The names that the source sorts, longest first.
abbrev pub scan_names : List Text
scan_names =
    codes "EAP-SUITE-B-192"
    ∷ codes "FT/SAE-EXT-KEY"
    ∷ codes "FT/FILS-SHA256"
    ∷ codes "FT/FILS-SHA384"
    ∷ codes "EAP-SUITE-B"
    ∷ codes "SAE-EXT-KEY"
    ∷ codes "FILS-SHA256"
    ∷ codes "FILS-SHA384"
    ∷ codes "EAP-SHA256"
    ∷ codes "PSK-SHA256"
    ∷ codes "EAP-SHA384"
    ∷ codes "FT/EAP"
    ∷ codes "FT/PSK"
    ∷ codes "FT/SAE"
    ∷ codes "None"
    ∷ codes "EAP"
    ∷ codes "PSK"
    ∷ codes "SAE"
    ∷ codes "OWE"
    ∷ codes "DPP"
    ∷ codes "?"
    ∷ []

sorted_names : longest_first declared_names ≡ scan_names
unfolding longest_first
sorted_names = refl

-- `end == len(body) or body[end] in "+-"`.
abbrev pub at_separator : Text → Bool
at_separator [] = true
at_separator (c ∷ text) = c == b'+' || c == b'-'

-- What follows a name that the body begins with, if it is a separator or nothing.
unfoldable pub behind_name : Text → Text → Option Text
behind_name [] body = if at_separator body then some body else none
behind_name (x ∷ name) [] = none
behind_name (x ∷ name) (c ∷ body) = if x == c then behind_name name body else none

-- The name found, and the rest of the body.
pub record Found : Type 0 where
  pub name : Text
  pub rest : Text

abbrev pub found_or : Text → Option Text → Option Found → Option Found
found_or name (some rest) later = some (record { name = name; rest = rest })
found_or name none later = later

unfoldable pub find_name : List Text → Text → Option Found
find_name [] body = none
find_name (name ∷ names) body = found_or name (behind_name name body) (find_name names body)

-- The loop. Every name has a character, so the length of the body is fuel enough.
unfoldable pub scan_loop : ℕ → Text → List Text
scan_loop zero body = []
scan_loop (suc fuel) [] = []
scan_loop (suc fuel) (c ∷ body) = elim (find_name scan_names (c ∷ body)) [
  | none ↦ []
  | some f ↦ f.name ∷ (elim f.rest [
    | [] ↦ []
    | d ∷ rest ↦ elim (d == b'+') [ true ↦ scan_loop fuel rest | false ↦ [] ]
  ])
]

unfoldable pub scan_key_mgmt : Text → List Text
unfolding scan_loop
scan_key_mgmt body = scan_loop (length body) body
