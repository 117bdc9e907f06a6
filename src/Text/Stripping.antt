-- ===== src/Text/Stripping.antt =====
-- `strip` of a text that has been stripped at its end already.
use wpa_ctrl_py.Base.{
  ℕ, ◌≡◌, refl, ap, sym, ◌∙◌, inl, inr, Bool, true, false, ◌&&◌, [], ◌∷◌, arith, is_empty,
  if◌then◌else◌, Bool-cases,
}
use wpa_ctrl_py.Text.{Text, lstrip, rstrip, strip, is_space}

-- A wider test drops what a narrower one dropped.
pub rstrip-rstrip :
    (narrow wide : ℕ → Bool)
    → ((c : ℕ) → narrow c ≡ true → wide c ≡ true)
    → (text : Text) → rstrip wide (rstrip narrow text) ≡ rstrip wide text
unfolding rstrip
rstrip-rstrip narrow wide within [] = refl
rstrip-rstrip narrow wide within (c ∷ text) =
    let ih = rstrip-rstrip narrow wide within text in
    elim (Bool-cases (is_empty (rstrip narrow text) && narrow c)) [
      | inl gone ↦ rw gone (empty (rstrip narrow text) refl gone ih)
      | inr kept ↦ rw kept (rw ih refl)
    ]
  where
    empty :
        (kept : Text)
        → rstrip narrow text ≡ kept
        → is_empty kept && narrow c ≡ true
        → rstrip wide kept ≡ rstrip wide text
        → [] ≡ (if is_empty (rstrip wide text) && wide c then [] else c ∷ rstrip wide text)
    empty [] e gone ih = rw (← ih, within c gone) refl
    empty (d ∷ kept) e gone ih = cc

pub rstrip-head :
    (drops : ℕ → Bool) (text rest : Text) (c : ℕ)
    → rstrip drops text ≡ c ∷ rest
    → (behind : Text) × (text ≡ c ∷ behind)
unfolding rstrip
rstrip-head drops [] rest c h = cc
rstrip-head drops (d ∷ text) rest c h = (text, ground arith)

lstrip-solid : (c : ℕ) (text : Text) → is_space c ≡ false → lstrip is_space (c ∷ text) ≡ c ∷ text
unfolding lstrip
lstrip-solid c text solid = rw solid refl

-- White space at the end that has been stripped does not count, and where a text then begins with
-- no white space, `strip` has only its end to strip.
pub strip-rstrip :
    (drops : ℕ → Bool)
    → ((c : ℕ) → drops c ≡ true → is_space c ≡ true)
    → (text rest : Text) (c : ℕ) → rstrip drops text ≡ c ∷ rest
    → is_space c ≡ false
    → strip text ≡ rstrip is_space (c ∷ rest)
unfolding strip
strip-rstrip drops within text rest c h solid =
    let (behind, e) = rstrip-head drops text rest c h in
    ap (λ (t : Text). rstrip is_space (lstrip is_space t)) e
    ∙ ap (rstrip is_space) (lstrip-solid c behind solid)
    ∙ (ap (rstrip is_space) (sym e)
        ∙ sym (rstrip-rstrip drops is_space within text)
        ∙ ap (rstrip is_space) h)
