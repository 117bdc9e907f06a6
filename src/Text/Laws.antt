-- ===== src/Text/Laws.antt =====
-- Laws of the operations on texts.
use wpa_ctrl_py.Base.{ℕ, ◌≡◌, ◌≢◌, refl, Bool, true, false, [], ◌∷◌, ◌++◌, arith, All}
use wpa_ctrl_py.Text.{Text, partition, lstrip, rstrip, split}

-- The text does not hold the character.
abbrev pub Lacks : ℕ → Text → Type 0
Lacks sep = All (λ c. c ≢ sep)

pub partition-append :
    (sep : ℕ) (before after : Text)
    → Lacks sep before
    → partition sep (before ++ sep ∷ after)
      ≡ record { before = before; found = true; after = after }
unfolding partition
partition-append sep [] after h = ground arith
partition-append sep (c ∷ before) after h = ground (arith, partition-append sep before after h.1)

pub partition-Lacks :
    (sep : ℕ) (text : Text)
    → Lacks sep text
    → partition sep text ≡ record { before = text; found = false; after = [] }
unfolding partition
partition-Lacks sep [] h = refl
partition-Lacks sep (c ∷ text) h = ground (arith, partition-Lacks sep text h.1)

-- The test drops none of the characters.
abbrev pub Keeps : (ℕ → Bool) → Text → Type 0
Keeps drops = All (λ c. drops c ≡ false)

pub rstrip-Keeps : (drops : ℕ → Bool) (text : Text) → Keeps drops text → rstrip drops text ≡ text
unfolding rstrip
rstrip-Keeps drops [] h = refl
rstrip-Keeps drops (c ∷ text) h = rw (rstrip-Keeps drops text h.1) (ground arith)

pub lstrip-Keeps : (drops : ℕ → Bool) (text : Text) → Keeps drops text → lstrip drops text ≡ text
unfolding lstrip
lstrip-Keeps drops [] h = refl
lstrip-Keeps drops (c ∷ text) h = rw h.0

-- Up to the first separator.
pub split-append :
    (sep : ℕ) (piece rest : Text)
    → Lacks sep piece
    → split sep (piece ++ sep ∷ rest) ≡ piece ∷ split sep rest
unfolding split
split-append sep [] rest h = ground arith
split-append sep (c ∷ piece) rest h = rw (split-append sep piece rest h.1) (ground arith)

pub split-Lacks : (sep : ℕ) (piece : Text) → Lacks sep piece → split sep piece ≡ piece ∷ []
unfolding split
split-Lacks sep [] h = refl
split-Lacks sep (c ∷ piece) h = rw (split-Lacks sep piece h.1) (ground arith)
