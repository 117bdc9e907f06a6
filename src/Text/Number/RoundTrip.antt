-- ===== src/Text/Number/RoundTrip.antt =====
-- `int` reads back what `str` prints, for every number.
use wpa_ctrl_py.Base.{
  ℕ, zero, suc, ◌+◌, ◌*◌, ◌/◌, ◌%◌, ◌<◌, ◌≡◌, refl, ap, ◌∙◌, inl, inr, Bool, true, false, [], ◌∷◌,
  some, arith, ltb, All, Bool-cases, lt→ltb,
}
use wpa_ctrl_py.Base.Int.{ℤ, negsuc, neg_ℕ, pos}
use wpa_ctrl_py.Result.{ok, ◌>>=◌}
use wpa_ctrl_py.Text.{Text, between, is_space, lstrip, rstrip}
use wpa_ctrl_py.Text.Laws.{Keeps, rstrip-Keeps, lstrip-Keeps}
use wpa_ctrl_py.Text.Number.{
  decimal_ℤ, digit_value, digits_from, drop_prefix, magnitude, signed, is_number_space, to_int,
  digits_onto, decimal,
}

abbrev pub IsDigit : ℕ → Type 0
IsDigit c = between b'0' b'9' c ≡ true

below_ten : (n : ℕ) → n < 10 → IsDigit (b'0' + n)
below_ten n h = ground arith

digits_onto-IsDigit :
    (fuel n : ℕ) (out : Text) → All IsDigit out → All IsDigit (digits_onto fuel n out)
unfolding digits_onto
digits_onto-IsDigit zero n out h = h
digits_onto-IsDigit (suc fuel) n out h = elim (Bool-cases (ltb n 10)) [
  | inl small ↦ rw small (below_ten n (ground arith), h)
  | inr large ↦ rw large (digits_onto-IsDigit fuel (n / 10) _ (below_ten (n % 10) (omega arith), h))
]

-- The print of a number is decimal digits.
pub decimal-IsDigit : (n : ℕ) → All IsDigit (decimal n)
unfolding decimal
decimal-IsDigit n = digits_onto-IsDigit (suc n) n [] tt

digit_value-digit : (d : ℕ) → d < 10 → digit_value 10 (b'0' + d) ≡ some d
unfolding digit_value
digit_value-digit d h = rw (lt→ltb (48 + d) 128 (omega arith)) (ground arith)

digits_from-digit :
    (flag : Bool) (value d : ℕ) (text : Text)
    → d < 10
    → digits_from 10 flag value ((b'0' + d) ∷ text) ≡ digits_from 10 true (value * 10 + d) text
unfolding digits_from
digits_from-digit flag value d text h = rw (digit_value-digit d h, digits_from)

digits_from-digits_onto :
    (fuel n : ℕ) (flag : Bool) (out : Text)
    → n < fuel
    → digits_from 10 flag 0 (digits_onto fuel n out) ≡ digits_from 10 true n out
unfolding digits_onto
digits_from-digits_onto zero n flag out h = absurd (omega arith)
digits_from-digits_onto (suc fuel) n flag out h = elim (Bool-cases (ltb n 10)) [
  | inl small ↦ rw small (
      digits_from-digit flag 0 n out (ground arith)
      ∙ ap (λ v. digits_from 10 true v out) (omega arith))
  | inr large ↦ rw large (
      digits_from-digits_onto fuel (n / 10) flag _ (ground arith)
      ∙ digits_from-digit true (n / 10) (n % 10) out (omega arith)
      ∙ ap (λ v. digits_from 10 true v out) (omega arith))
]

drop_prefix_ten : (text : Text) → drop_prefix 10 text ≡ text
unfolding drop_prefix
drop_prefix_ten [] = refl
drop_prefix_ten (c ∷ []) = refl
drop_prefix_ten (c ∷ d ∷ text) = refl

magnitude_ten : (text : Text) → magnitude 10 text ≡ digits_from 10 false 0 text
unfolding magnitude
magnitude_ten text = rw drop_prefix_ten

magnitude-decimal : (n : ℕ) → magnitude 10 (decimal n) ≡ ok n
unfolding decimal
magnitude-decimal n =
    magnitude_ten _
    ∙ digits_from-digits_onto (suc n) n false [] (omega arith)
    ∙ (unfold digits_from in refl)

digit_no_space : (c : ℕ) → IsDigit c → is_number_space c ≡ false
unfolding is_number_space is_space
digit_no_space c h = ground arith

Keeps-digits : (text : Text) → All IsDigit text → Keeps is_number_space text
Keeps-digits [] h = tt
Keeps-digits (c ∷ text) h = (digit_no_space c h.0, Keeps-digits text h.1)

signed-digits :
    (text : Text) → All IsDigit text → signed 10 text ≡ (magnitude 10 text >>= λ n. ok (pos n))
unfolding signed
signed-digits [] h = unfold magnitude drop_prefix digits_from in refl
signed-digits (c ∷ text) h = ground arith

to_int-signed :
    (base : ℕ) (text : Text)
    → to_int base text ≡ signed base (rstrip is_number_space (lstrip is_number_space text))
unfolding to_int
to_int-signed base text = refl

-- Without white space and sign.
to_int-digits :
    (text : Text) → All IsDigit text → to_int 10 text ≡ (magnitude 10 text >>= λ n. ok (pos n))
to_int-digits text h =
    let keeps = Keeps-digits text h in
    to_int-signed 10 text
    ∙ rw (lstrip-Keeps is_number_space text keeps, rstrip-Keeps is_number_space text keeps)
        (signed-digits text h)

-- A number is read back from its print.
pub to_int-decimal : (n : ℕ) → to_int 10 (decimal n) ≡ ok (pos n)
to_int-decimal n = to_int-digits (decimal n) (decimal-IsDigit n) ∙ rw (magnitude-decimal n)

signed-minus : (text : Text) → signed 10 (b'-' ∷ text) ≡ (magnitude 10 text >>= λ n. ok (neg_ℕ n))
unfolding signed
signed-minus text = refl

minus_kept : is_number_space b'-' ≡ false
unfolding is_number_space is_space
minus_kept = refl

neg_suc : (n : ℕ) → neg_ℕ (suc n) ≡ negsuc n
neg_suc n = ground arith

to_int-minus : (n : ℕ) → to_int 10 (b'-' ∷ decimal (suc n)) ≡ ok (negsuc n)
to_int-minus n =
    let text = b'-' ∷ decimal (suc n) in
    let keeps : Keeps is_number_space text =
      (minus_kept, Keeps-digits (decimal (suc n)) (decimal-IsDigit (suc n))) in
    to_int-signed 10 text
    ∙ rw (lstrip-Keeps is_number_space text keeps, rstrip-Keeps is_number_space text keeps)
        (signed-minus (decimal (suc n)) ∙ rw (magnitude-decimal (suc n)) (ap ok (neg_suc n)))

-- An integer is read back from its print.
pub to_int-decimal_ℤ : (z : ℤ) → to_int 10 (decimal_ℤ z) ≡ ok z
unfolding decimal_ℤ
to_int-decimal_ℤ (pos n) = to_int-decimal n
to_int-decimal_ℤ (negsuc n) = to_int-minus n
