-- ===== src/Text/Number.antt =====
-- `int(text, base)` for the bases 10 and 16, and the decimal print of a number. The interpreter's
-- configurable limit on the number of digits is left out.
pub mod RoundTrip
use wpa_ctrl_py.Base.{
  ℕ, zero, suc, ◌+◌, ◌-◌, ◌*◌, ◌/◌, ◌%◌, Bool, true, false, not, ◌&&◌, ◌||◌, List, [], ◌∷◌, ◌++◌,
  Option, none, some, ltb, leb, ◌==◌, if◌then◌else◌,
}
use wpa_ctrl_py.Base.Int.{ℤ, pos, negsuc, neg_ℕ}
use wpa_ctrl_py.Result.{Result, ok, err, value_error, ◌>>=◌}
use wpa_ctrl_py.Text.{hex_digit, Text, between, is_space, lstrip, rstrip, is_hex_digit, hex_value}

-- The code points of the digit 0 in the scripts of Unicode 16, whose digits follow in order.
decimal_zeros : List ℕ
decimal_zeros =
    1632 ∷ 1776 ∷ 1984 ∷ 2406 ∷ 2534 ∷ 2662 ∷ 2790 ∷ 2918 ∷ 3046 ∷ 3174 ∷ 3302 ∷ 3430 ∷ 3558 ∷ 3664
    ∷ 3792 ∷ 3872 ∷ 4160 ∷ 4240 ∷ 6112 ∷ 6160 ∷ 6470 ∷ 6608 ∷ 6784 ∷ 6800 ∷ 6992 ∷ 7088 ∷ 7232
    ∷ 7248 ∷ 42528 ∷ 43216 ∷ 43264 ∷ 43472 ∷ 43504 ∷ 43600 ∷ 44016 ∷ 65296 ∷ 66720 ∷ 68912 ∷ 68928
    ∷ 69734 ∷ 69872 ∷ 69942 ∷ 70096 ∷ 70384 ∷ 70736 ∷ 70864 ∷ 71248 ∷ 71360 ∷ 71376 ∷ 71386 ∷ 71472
    ∷ 71904 ∷ 72016 ∷ 72688 ∷ 72784 ∷ 73040 ∷ 73120 ∷ 73552 ∷ 90416 ∷ 92768 ∷ 92864 ∷ 93008 ∷ 93552
    ∷ 118000 ∷ 120782 ∷ 120792 ∷ 120802 ∷ 120812 ∷ 120822 ∷ 123200 ∷ 123632 ∷ 124144 ∷ 124401
    ∷ 125264 ∷ 130032 ∷ []

digit_in : List ℕ → ℕ → Option ℕ
digit_in [] c = none
digit_in (z ∷ zeros) c = if between z (z + 9) c then some (c - z) else digit_in zeros c

letter_value : ℕ → Option ℕ
unfolding hex_value
letter_value c = if between b'a' b'f' c || between b'A' b'F' c then some (hex_value c) else none

-- The value of a digit in a base of 10 or 16.
digit_value : ℕ → ℕ → Option ℕ
unfolding digit_in letter_value decimal_zeros
digit_value base c =
    if ltb c 128
    then (if between b'0' b'9' c
        then some (c - b'0')
        else if base == 16
        then letter_value c
        else none)
    else digit_in decimal_zeros c

-- Digits, with single underscores between them. The flag says that a digit stands before.
digits_from : ℕ → Bool → ℕ → Text → Result ℕ
digits_from base after_digit value [] = if after_digit then ok value else err value_error
digits_from base after_digit value (c ∷ text) = elim (digit_value base c) [
  | none ↦ if c == b'_' && after_digit then digits_from base false value text else err value_error
  | some d ↦ digits_from base true (value * base + d) text
]

-- The "0x" that base 16 allows, with an underscore behind it.
drop_underscore : Text → Text
drop_underscore [] = []
drop_underscore (c ∷ text) = if c == b'_' then text else c ∷ text

drop_prefix : ℕ → Text → Text
unfolding drop_underscore
drop_prefix base (z ∷ x ∷ text) =
    if base == 16 && z == b'0' && (x == b'x' || x == b'X')
    then drop_underscore text
    else z ∷ x ∷ text
drop_prefix base text = text

magnitude : ℕ → Text → Result ℕ
magnitude base text = digits_from base false 0 (drop_prefix base text)

signed : ℕ → Text → Result ℤ
signed base [] = err value_error
signed base (c ∷ text) =
    if c == b'-'
    then (magnitude base text >>= λ n. ok (neg_ℕ n))
    else if c == b'+'
    then (magnitude base text >>= λ n. ok (pos n))
    else (magnitude base (c ∷ text) >>= λ n. ok (pos n))

-- The white space that `int` skips: that of `str`, without the four separators of ASCII.
is_number_space : ℕ → Bool
unfolding is_space
is_number_space c = is_space c && not (between 28 31 c)

-- `int(text, base)`.
unfoldable pub to_int : ℕ → Text → Result ℤ
unfolding signed magnitude drop_prefix digits_from digit_value is_number_space lstrip rstrip
to_int base text = signed base (rstrip is_number_space (lstrip is_number_space text))

digits_onto : ℕ → ℕ → Text → Text
digits_onto zero n out = out
digits_onto (suc fuel) n out =
    let more = digits_onto fuel (n / 10) ((b'0' + n % 10) ∷ out) in
    if ltb n 10 then (b'0' + n) ∷ out else more

-- `str(n)`; a number has fewer digits than its successor counts.
unfoldable pub decimal : ℕ → Text
unfolding digits_onto
decimal n = digits_onto (suc n) n []

-- `str(n)` of an integer.
unfoldable pub decimal_ℤ : ℤ → Text
unfolding decimal
decimal_ℤ (pos n) = decimal n
decimal_ℤ (negsuc n) = b'-' ∷ decimal (suc n)

-- `f"{n:#x}"`, of a number that is not negative.
hex_onto : ℕ → ℕ → Text → Text
hex_onto zero n out = out
hex_onto (suc fuel) n out =
    let more = hex_onto fuel (n / 16) (hex_digit (n % 16) ∷ out) in
    if ltb n 16 then hex_digit n ∷ out else more

unfoldable pub prefixed_hex : ℕ → Text
unfolding hex_onto
prefixed_hex n = b'0' ∷ b'x' ∷ hex_onto (suc n) n []
