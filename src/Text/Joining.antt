-- ===== src/Text/Joining.antt =====
-- `str.join` and `str.split` undo each other.
use wpa_ctrl_py.Base.{
  ℕ, ◌≡◌, refl, sym, ap, ◌∙◌, inl, inr, false, List, [], ◌∷◌, ◌==◌, All, Bool-cases, is_empty,
  ==_iff,
}
use wpa_ctrl_py.Text.{Text, cons_head, split, join}
use wpa_ctrl_py.Text.Laws.{Lacks, split-append, split-Lacks}

join-cons_head :
    (sep c : ℕ) (pieces : List Text)
    → join (sep ∷ []) (cons_head c pieces) ≡ c ∷ join (sep ∷ []) pieces
unfolding join
join-cons_head sep c [] = refl
join-cons_head sep c (p ∷ []) = refl
join-cons_head sep c (p ∷ q ∷ pieces) = refl

join-nil :
    (sep : ℕ) (pieces : List Text)
    → is_empty pieces ≡ false
    → join (sep ∷ []) ([] ∷ pieces) ≡ sep ∷ join (sep ∷ []) pieces
unfolding join
join-nil sep [] h = cc
join-nil sep (p ∷ pieces) h = refl

is_empty-cons_head : (c : ℕ) (pieces : List Text) → is_empty (cons_head c pieces) ≡ false
is_empty-cons_head c [] = refl
is_empty-cons_head c (p ∷ pieces) = refl

pub is_empty-split : (sep : ℕ) (text : Text) → is_empty (split sep text) ≡ false
unfolding split
is_empty-split sep [] = refl
is_empty-split sep (c ∷ text) = elim (Bool-cases (c == sep)) [
  | inl at_end ↦ rw at_end refl
  | inr other ↦ rw other (is_empty-cons_head c (split sep text))
]

pub join-split : (sep : ℕ) (text : Text) → join (sep ∷ []) (split sep text) ≡ text
unfolding split
join-split sep [] = unfold join in refl
join-split sep (c ∷ text) = elim (Bool-cases (c == sep)) [
  | inl at_end ↦ rw at_end (
      join-nil sep (split sep text) (is_empty-split sep text)
      ∙ ap (◌∷◌ sep) (join-split sep text)
      ∙ ap (λ (d : ℕ). d ∷ text) (sym ((==_iff c sep).0 at_end)))
  | inr other ↦ rw other (join-cons_head sep c (split sep text) ∙ ap (◌∷◌ c) (join-split sep text))
]

pub split-join :
    (sep : ℕ) (piece : Text) (pieces : List Text)
    → All (Lacks sep) (piece ∷ pieces)
    → split sep (join (sep ∷ []) (piece ∷ pieces)) ≡ piece ∷ pieces
unfolding join
split-join sep piece [] h = split-Lacks sep piece h.0
split-join sep piece (next ∷ pieces) h =
    split-append sep piece (join (sep ∷ []) (next ∷ pieces)) h.0
    ∙ ap (◌∷◌ piece) (split-join sep next pieces h.1)
