-- ===== src/TextSet/Frozen.antt =====
-- Python's frozenset of texts: what a set forgets of the list that stands for it.
use wpa_ctrl_py.Base.{
  ◌≡◌, refl, sym, ap, ◌∙◌, inl, inr, Bool, true, false, not, [], ◌∷◌, any, is_empty, arith,
  Bool-cases,
}
use mathlib.Core.Quot
use mathlib.Core.Quot.{Quot}
use wpa_ctrl_py.Text.{Text}
use wpa_ctrl_py.Dict.Laws.{text_eq_refl}
use wpa_ctrl_py.TextSet.{TextSet, member}
use wpa_ctrl_py.TextSet.Laws.{any-member}

abbrev pub SameMembers : TextSet → TextSet → Type 0
SameMembers xs ys = (x : Text) → member x xs ≡ member x ys

abbrev pub FrozenSet : Type 0
FrozenSet = Quot SameMembers

-- An item of a list that passes the test.
any-found :
    (test : Text → Bool) (xs : TextSet)
    → any test xs ≡ true
    → (x : Text) × (member x xs ≡ true) × (test x ≡ true)
unfolding member
any-found test [] h = cc
any-found test (x ∷ xs) h = elim (Bool-cases (test x)) [
  | inl passes ↦ (x, rw (text_eq_refl x) refl, passes)
  | inr fails ↦
      let (y, there, passes) = any-found test xs (rw fails at h) in (y, ground arith, passes)
]

any-Same :
    (test : Text → Bool) (xs ys : TextSet)
    → SameMembers xs ys
    → any test xs ≡ true
    → any test ys ≡ true
any-Same test xs ys same h =
    let (x, there, passes) = any-found test xs h in
    sym (any-member test x ys (sym (same x) ∙ there)) ∙ rw passes refl

both_true : (a b : Bool) → (a ≡ true → b ≡ true) → (b ≡ true → a ≡ true) → a ≡ b
both_true true b f g = sym (f refl)
both_true false true f g = g refl
both_true false false f g = refl

pub any-SameMembers :
    (test : Text → Bool) (xs ys : TextSet) → SameMembers xs ys → any test xs ≡ any test ys
any-SameMembers test xs ys same =
    both_true (any test xs) (any test ys) (any-Same test xs ys same)
      (any-Same test ys xs (λ x. sym (same x)))

is_empty-any : (xs : TextSet) → not (any (λ x. true) xs) ≡ is_empty xs
is_empty-any [] = refl
is_empty-any (x ∷ xs) = refl

pub is_empty-SameMembers : (xs ys : TextSet) → SameMembers xs ys → is_empty xs ≡ is_empty ys
is_empty-SameMembers xs ys same =
    sym (is_empty-any xs) ∙ ap not (any-SameMembers (λ x. true) xs ys same) ∙ is_empty-any ys

-- The questions that the program asks of a set.
abbrev pub holds : Text → FrozenSet → Bool
holds x = Quot.lift (hlevel) (member x) (λ xs ys same. same x)

abbrev pub holds_any : (Text → Bool) → FrozenSet → Bool
holds_any test = Quot.lift (hlevel) (any test) (λ xs ys same. any-SameMembers test xs ys same)

abbrev pub holds_none : FrozenSet → Bool
holds_none = Quot.lift (hlevel) is_empty (λ xs ys same. is_empty-SameMembers xs ys same)
