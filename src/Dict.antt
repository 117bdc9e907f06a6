-- ===== src/Dict.antt =====
-- Python's `dict` from texts to texts: insertion keeps the place of a key that is there.
pub mod Laws
use wpa_ctrl_py.Base.{List, [], ◌∷◌, Option, none, some, if◌then◌else◌, ◌&&◌, ◌≡◌, Bool, refl}
use wpa_ctrl_py.Text.{Text, text_eq}

abbrev pub Dict : Type 0
Dict = List (Text × Text)

-- `d.get(key)`.
unfoldable pub get : Text → Dict → Option Text
get key [] = none
get key ((k, v) ∷ d) = if text_eq k key then some v else get key d

-- `d[key] = value`.
unfoldable pub set : Text → Text → Dict → Dict
set key value [] = (key, value) ∷ []
set key value ((k, v) ∷ d) =
    let rest = set key value d in if text_eq k key then (k, value) ∷ d else (k, v) ∷ rest
