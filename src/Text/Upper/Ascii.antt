-- ===== src/Text/Upper/Ascii.antt =====
-- Upper case within ASCII.
use wpa_ctrl_py.Base.{
  ℕ, zero, suc, ◌-◌, ◌<◌, ◌≡◌, refl, Bool, true, ◌&&◌, [], ◌∷◌, arith, if◌then◌else◌, All,
}
use wpa_ctrl_py.Text.{Text, text_eq, between}
use wpa_ctrl_py.Text.Utf8.Ascii.{IsAscii}
use wpa_ctrl_py.Dict.Laws.{text_eq_iff}
use wpa_ctrl_py.Text.Upper.{upper_char, upper}

-- The letters a to z, and every other character as it is.
abbrev pub ascii_upper_char : ℕ → ℕ
ascii_upper_char c = if between b'a' b'z' c then c - 32 else c

abbrev pub ascii_upper : Text → Text
ascii_upper [] = []
ascii_upper (c ∷ text) = ascii_upper_char c ∷ ascii_upper text

all_below : ℕ → (ℕ → Bool) → Bool
all_below zero p = true
all_below (suc n) p = p n && all_below n p

all_below-lt : (n : ℕ) (p : ℕ → Bool) (x : ℕ) → all_below n p ≡ true → x < n → p x ≡ true
unfolding all_below
all_below-lt zero p x h lt = absurd (omega arith)
all_below-lt (suc n) p x h lt = ground (arith, all_below-lt n p x)

upper_table : all_below 128 (λ c. text_eq (upper_char c) (ascii_upper_char c ∷ [])) ≡ true
unfolding all_below upper_char text_eq
upper_table = refl

pub upper_char_ascii : (c : ℕ) → IsAscii c → upper_char c ≡ ascii_upper_char c ∷ []
upper_char_ascii c h =
    (text_eq_iff (upper_char c) (ascii_upper_char c ∷ [])).0
      (all_below-lt 128 (λ c. text_eq (upper_char c) (ascii_upper_char c ∷ [])) c upper_table h)

pub upper_ascii : (text : Text) → All IsAscii text → upper text ≡ ascii_upper text
unfolding upper
upper_ascii [] h = refl
upper_ascii (c ∷ text) h = rw (upper_char_ascii c h.0, upper_ascii text h.1) refl
