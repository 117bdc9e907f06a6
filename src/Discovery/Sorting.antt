-- ===== src/Discovery/Sorting.antt =====
-- `sorted` on texts: by code points, from the first.
use wpa_ctrl_py.Base.{
  ◌≡◌, refl, ◌∙◌, inl, inr, Bool, true, false, ◌||◌, List, [], ◌∷◌, arith, ltb, ◌==◌, if◌then◌else◌,
  Bool-cases,
}
use wpa_ctrl_py.Text.{Text, text_eq}
use wpa_ctrl_py.TextSet.{member}

unfoldable pub text_le : Text → Text → Bool
text_le [] b = true
text_le (c ∷ a) [] = false
text_le (c ∷ a) (d ∷ b) = let rest = text_le a b in if c == d then rest else ltb c d

unfoldable pub insert : Text → List Text → List Text
insert x [] = x ∷ []
insert x (y ∷ ys) = let rest = insert x ys in if text_le x y then x ∷ y ∷ ys else y ∷ rest

unfoldable pub sort : List Text → List Text
sort [] = []
sort (x ∷ xs) = insert x (sort xs)

abbrev pub IsSorted : List Text → Type 0
IsSorted [] = Unit
IsSorted (x ∷ []) = Unit
IsSorted (x ∷ y ∷ ys) = (text_le x y ≡ true) × IsSorted (y ∷ ys)

text_le_total : (a b : Text) → text_le a b ≡ false → text_le b a ≡ true
unfolding text_le
text_le_total [] b h = cc
text_le_total (c ∷ a) [] h = refl
text_le_total (c ∷ a) (d ∷ b) h = ground (arith, text_le_total a b)

-- Behind a head that is no more than both.
insert-behind :
    (y x : Text) (ys : List Text)
    → text_le y x ≡ true
    → IsSorted (y ∷ ys)
    → IsSorted (y ∷ insert x ys)
unfolding insert
insert-behind y x [] h s = (h, tt)
insert-behind y x (z ∷ zs) h s = elim (Bool-cases (text_le x z)) [
  | inl before ↦ rw before (h, (before, s.1))
  | inr after ↦ rw after (s.0, insert-behind z x zs (text_le_total x z after) s.1)
]

insert-IsSorted : (x : Text) (ys : List Text) → IsSorted ys → IsSorted (insert x ys)
unfolding insert
insert-IsSorted x [] s = tt
insert-IsSorted x (y ∷ ys) s = elim (Bool-cases (text_le x y)) [
  | inl before ↦ rw before (before, s)
  | inr after ↦ rw after (insert-behind y x ys (text_le_total x y after) s)
]

pub sort-IsSorted : (xs : List Text) → IsSorted (sort xs)
unfolding sort
sort-IsSorted [] = tt
sort-IsSorted (x ∷ xs) = insert-IsSorted x (sort xs) (sort-IsSorted xs)

member-insert :
    (z x : Text) (ys : List Text) → member z (insert x ys) ≡ (text_eq x z || member z ys)
unfolding insert member
member-insert z x [] = refl
member-insert z x (y ∷ ys) = elim (Bool-cases (text_le x y)) [
  | inl before ↦ rw before refl
  | inr after ↦ rw (after, member-insert z x ys) (ground arith)
]

pub member-sort : (z : Text) (xs : List Text) → member z (sort xs) ≡ member z xs
unfolding sort
member-sort z [] = refl
member-sort z (x ∷ xs) = member-insert z x (sort xs) ∙ rw (member-sort z xs) (unfold member in refl)
