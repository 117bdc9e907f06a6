-- ===== src/TextSet/Laws.antt =====
-- The laws of membership.
use wpa_ctrl_py.Base.{
  any, is_empty, ◌≡◌, refl, ◌∙◌, inl, inr, Bool, true, false, ◌||◌, List, [], ◌∷◌, arith, All,
  Bool-cases,
}
use mathlib.Core.Path.{sym, subst}
use wpa_ctrl_py.Text.{Text, text_eq}
use wpa_ctrl_py.Dict.Laws.{text_eq_iff}
use wpa_ctrl_py.TextSet.{TextSet, member, add, update}

pub member-add :
    (x item : Text) (items : TextSet)
    → member x (add item items) ≡ (text_eq item x || member x items)
unfolding member add
member-add x item items = elim (Bool-cases (member item items)) [
  | inl old ↦ rw old (ground (arith, text_eq_iff item x))
  | inr new ↦ rw new
]

pub member-update :
    (x : Text) (more : List Text) (items : TextSet)
    → member x (update more items) ≡ (member x more || member x items)
unfolding update
member-update x [] items = unfold member in refl
member-update x (y ∷ more) items =
    member-update x more (add y items) ∙ rw member-add (unfold member in ground arith)

-- What holds of every text of a list holds of a member.
pub member-All :
    (P : Text → Type 0) (item : Text) (items : List Text)
    → member item items ≡ true
    → All P items
    → P item
unfolding member
member-All P item [] h all = cc
member-All P item (x ∷ items) h all = elim (Bool-cases (text_eq x item)) [
  | inl same ↦ subst P ((text_eq_iff x item).0 same) all.0
  | inr other ↦ member-All P item items (rw other at h) all.1
]

pub is_empty-add : (item : Text) (items : TextSet) → is_empty (add item items) ≡ false
unfolding add
is_empty-add item [] = unfold member in refl
is_empty-add item (x ∷ items) = ground arith

pub any-member :
    (test : Text → Bool) (item : Text) (items : TextSet)
    → member item items ≡ true
    → (test item || any test items) ≡ any test items
unfolding member
any-member test item [] h = cc
any-member test item (x ∷ items) h = elim (Bool-cases (text_eq x item)) [
  | inl same ↦ rw ((text_eq_iff x item).0 same) (ground arith)
  | inr other ↦ ground (arith, any-member test item items (rw other at h))
]

pub any-add :
    (test : Text → Bool) (item : Text) (items : TextSet)
    → any test (add item items) ≡ (test item || any test items)
unfolding add
any-add test item items = elim (Bool-cases (member item items)) [
  | inl old ↦ rw old (sym (any-member test item items old))
  | inr new ↦ rw new
]

pub any-update :
    (test : Text → Bool) (more : List Text) (items : TextSet)
    → any test (update more items) ≡ (any test more || any test items)
unfolding update
any-update test [] items = refl
any-update test (x ∷ more) items = any-update test more (add x items) ∙ rw any-add (ground arith)
