-- ===== src/Dict/Laws.antt =====
-- The laws of `get` and `set`.
use wpa_ctrl_py.Base.{◌≡◌, ◌↔◌, refl, true, [], ◌∷◌, some, arith, if◌then◌else◌}
use wpa_ctrl_py.Text.{Text, text_eq}
use wpa_ctrl_py.Dict.{Dict, get, set}

pub text_eq_iff : (a b : Text) → (text_eq a b ≡ true) ↔ (a ≡ b)
unfolding text_eq
text_eq_iff (x ∷ a) (y ∷ b) = ground (arith, text_eq_iff a b)
text_eq_iff _ _ = ground arith

pub text_eq_refl : (a : Text) → text_eq a a ≡ true
text_eq_refl a = (text_eq_iff a a).1 refl

pub get-set :
    (k key value : Text) (d : Dict)
    → get k (set key value d) ≡ (if text_eq key k then some value else get k d)
unfolding get set
get-set k key value [] = refl
get-set k key value ((j, v) ∷ d) =
    ground (arith, get-set k key value d, text_eq_iff j key, text_eq_iff j k, text_eq_iff key k)
