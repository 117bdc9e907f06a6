-- ===== src/TextSet.antt =====
-- A Python set of texts: a list with no text twice.
pub mod Laws
pub mod Frozen
use wpa_ctrl_py.Base.{Bool, true, false, ◌||◌, List, [], ◌∷◌, if◌then◌else◌}
use wpa_ctrl_py.Text.{Text, text_eq}

abbrev pub TextSet : Type 0
TextSet = List Text

-- `item in items`.
unfoldable pub member : Text → TextSet → Bool
member item [] = false
member item (x ∷ items) = text_eq x item || member item items

-- `items.add(item)`.
unfoldable pub add : Text → TextSet → TextSet
add item items = if member item items then items else item ∷ items

-- `items.update(more)`.
unfoldable pub update : List Text → TextSet → TextSet
update [] items = items
update (x ∷ more) items = update more (add x items)
