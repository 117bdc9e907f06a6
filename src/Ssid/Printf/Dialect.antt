-- ===== src/Ssid/Printf/Dialect.antt =====
-- The dialect of printf escapes, as the comment on `printf_decode` (wpa_ctrl/ssid.py) describes it,
-- as a relation between a text and the octets that it spells.
use wpa_ctrl_py.Base.{
  ℕ, ◌+◌, ◌-◌, ◌*◌, ◌%◌, ◌≡◌, ◌≢◌, refl, sym, ap, ◌∙◌, Bool, true, false, [], ◌∷◌, ◌++◌, none, some,
  arith,
}
use wpa_ctrl_py.Result.{ok}
use wpa_ctrl_py.Text.{Text, Bytes, between, is_hex_digit, hex_value}
use wpa_ctrl_py.Text.Utf8.{encode_char}
use wpa_ctrl_py.Ssid.Decode.{
  round, printf_escapes, hex_digits, octal_digits, escape_round, decode_round, printf_decode,
}
use wpa_ctrl_py.Ssid.Printf.Loop.{printf_decode-round}

-- The text does not go on with a character that the test selects.
abbrev pub Stops : (ℕ → Bool) → Text → Type 0
Stops test [] = Unit
Stops test (c ∷ text) = test c ≡ false

abbrev pub is_octal_digit : ℕ → Bool
is_octal_digit = between b'0' b'7'

-- Neither a named escape, nor `x`, nor an octal digit.
abbrev pub IsOrdinary : ℕ → Type 0
IsOrdinary c = (printf_escapes c ≡ none) × (c ≢ b'x') × (is_octal_digit c ≡ false)

-- `Spells text octets`: one constructor for each spelling of the dialect.
pub data Spells : Text → Bytes → Type 0 where
  finished : Spells [] []
  plain :
      {c : ℕ} {octets : Bytes} {text : Text} {rest all : Bytes}
      → c ≢ b'\\'
      → encode_char c ≡ ok octets
      → Spells text rest
      → all ≡ octets ++ rest
      → Spells (c ∷ text) all
  named :
      {c octet : ℕ} {text : Text} {rest : Bytes}
      → printf_escapes c ≡ some octet
      → Spells text rest
      → Spells (b'\\' ∷ c ∷ text) (octet ∷ rest)
  hex_two :
      {c d : ℕ} {text : Text} {rest : Bytes}
      → is_hex_digit c ≡ true
      → is_hex_digit d ≡ true
      → Spells text rest
      → Spells (b'\\' ∷ b'x' ∷ c ∷ d ∷ text) ((hex_value c * 16 + hex_value d) ∷ rest)
  hex_one :
      {c : ℕ} {text : Text} {rest : Bytes}
      → is_hex_digit c ≡ true
      → Stops is_hex_digit text
      → Spells text rest
      → Spells (b'\\' ∷ b'x' ∷ c ∷ text) (hex_value c ∷ rest)
  hex_none :
      {text : Text} {rest : Bytes}
      → Stops is_hex_digit text
      → Spells text rest
      → Spells (b'\\' ∷ b'x' ∷ text) rest
  octal_three :
      {a b c : ℕ} {text : Text} {rest : Bytes}
      → is_octal_digit a ≡ true
      → is_octal_digit b ≡ true
      → is_octal_digit c ≡ true
      → Spells text rest
      → Spells
          (b'\\' ∷ a ∷ b ∷ c ∷ text)
          ((((a - b'0') * 64 + (b - b'0') * 8 + (c - b'0')) % 256) ∷ rest)
  octal_two :
      {a b : ℕ} {text : Text} {rest : Bytes}
      → is_octal_digit a ≡ true
      → is_octal_digit b ≡ true
      → Stops is_octal_digit text
      → Spells text rest
      → Spells (b'\\' ∷ a ∷ b ∷ text) (((a - b'0') * 8 + (b - b'0')) ∷ rest)
  octal_one :
      {a : ℕ} {text : Text} {rest : Bytes}
      → is_octal_digit a ≡ true
      → Stops is_octal_digit text
      → Spells text rest
      → Spells (b'\\' ∷ a ∷ text) ((a - b'0') ∷ rest)
  unknown :
      {c : ℕ} {octets : Bytes} {text : Text} {rest all : Bytes}
      → IsOrdinary c
      → encode_char c ≡ ok octets
      → Spells text rest
      → all ≡ octets ++ rest
      → Spells (b'\\' ∷ c ∷ text) all
  trailing : Spells (b'\\' ∷ []) []

plain_round :
    (c : ℕ) {octets : Bytes} (text : Text)
    → c ≢ b'\\'
    → encode_char c ≡ ok octets
    → decode_round c text ≡ ok (round octets text)
unfolding decode_round
plain_round c text h e = ground (arith, e)

named_round :
    (c : ℕ) {octet : ℕ} (text : Text)
    → printf_escapes c ≡ some octet
    → decode_round b'\\' (c ∷ text) ≡ ok (round (octet ∷ []) text)
unfolding decode_round escape_round
named_round c text e = rw (e, escape_round)

unknown_round :
    (c : ℕ) {octets : Bytes} (text : Text)
    → IsOrdinary c
    → encode_char c ≡ ok octets
    → decode_round b'\\' (c ∷ text) ≡ ok (round octets text)
unfolding decode_round escape_round
unknown_round c text h e = ground (arith, e)

module _ (c : ℕ) where
  hex_two_round :
      (d : ℕ) (text : Text)
      → is_hex_digit c ≡ true
      → is_hex_digit d ≡ true
      → decode_round b'\\' (b'x' ∷ c ∷ d ∷ text)
        ≡ ok (round ((hex_value c * 16 + hex_value d) ∷ []) text)
  unfolding decode_round escape_round hex_digits
  hex_two_round d text hc hd = rw (hc, hd) (ground arith)

  hex_one_round :
      (text : Text)
      → is_hex_digit c ≡ true
      → Stops is_hex_digit text
      → decode_round b'\\' (b'x' ∷ c ∷ text) ≡ ok (round (hex_value c ∷ []) text)
  unfolding decode_round escape_round hex_digits
  hex_one_round [] hc h = rw hc (ground arith)
  hex_one_round (d ∷ text) hc h = rw (hc, h) (ground arith)

hex_none_round :
    (text : Text) → Stops is_hex_digit text → decode_round b'\\' (b'x' ∷ text) ≡ ok (round [] text)
unfolding decode_round escape_round hex_digits
hex_none_round [] h = refl
hex_none_round (d ∷ text) h = rw h

octal_round :
    (c : ℕ) (text : Text)
    → is_octal_digit c ≡ true
    → decode_round b'\\' (c ∷ text) ≡ ok (octal_digits 3 0 (c ∷ text))
unfolding decode_round escape_round
octal_round c text h = ground arith

octal_three_digits :
    (a b c : ℕ) (text : Text)
    → is_octal_digit a ≡ true
    → is_octal_digit b ≡ true
    → is_octal_digit c ≡ true
    → octal_digits 3 0 (a ∷ b ∷ c ∷ text)
      ≡ round ((((a - b'0') * 64 + (b - b'0') * 8 + (c - b'0')) % 256) ∷ []) text
unfolding octal_digits
octal_three_digits a b c text ha hb hc = rw (ha, hb, hc) (ground arith)

octal_two_digits :
    (a b : ℕ) (text : Text)
    → is_octal_digit a ≡ true
    → is_octal_digit b ≡ true
    → Stops is_octal_digit text
    → octal_digits 3 0 (a ∷ b ∷ text) ≡ round (((a - b'0') * 8 + (b - b'0')) ∷ []) text
unfolding octal_digits
octal_two_digits a b [] ha hb h = ground arith
octal_two_digits a b (c ∷ text) ha hb h = ground arith

octal_one_digit :
    (a : ℕ) (text : Text)
    → is_octal_digit a ≡ true
    → Stops is_octal_digit text
    → octal_digits 3 0 (a ∷ text) ≡ round ((a - b'0') ∷ []) text
unfolding octal_digits
octal_one_digit a [] ha h = ground arith
octal_one_digit a (c ∷ text) ha h = ground arith

-- `printf_decode` reads every spelling of the dialect as the octets that it spells.
pub printf_decode-Spells :
    {text : Text} {octets : Bytes} → Spells text octets → printf_decode text ≡ ok octets
printf_decode-Spells finished = unfold printf_decode in refl
printf_decode-Spells (plain {c} {text} h e s all_is) =
    printf_decode-round c text _ (plain_round c text h e) (printf_decode-Spells s)
    ∙ ap ok (sym all_is)
printf_decode-Spells (named {c} {text} e s) =
    printf_decode-round b'\\' (c ∷ text) _ (named_round c text e) (printf_decode-Spells s)
printf_decode-Spells (hex_two {c} {d} {text} hc hd s) =
    printf_decode-round b'\\' _ _ (hex_two_round c d text hc hd) (printf_decode-Spells s)
printf_decode-Spells (hex_one {c} {text} hc h s) =
    printf_decode-round b'\\' _ _ (hex_one_round c text hc h) (printf_decode-Spells s)
printf_decode-Spells (hex_none {text} h s) =
    printf_decode-round b'\\' _ _ (hex_none_round text h) (printf_decode-Spells s)
printf_decode-Spells (octal_three {a} {b} {c} {text} ha hb hc s) =
    printf_decode-round b'\\' _ _
      (octal_round a _ ha ∙ ap ok (octal_three_digits a b c text ha hb hc)) (printf_decode-Spells s)
printf_decode-Spells (octal_two {a} {b} {text} ha hb h s) =
    printf_decode-round b'\\' _ _ (octal_round a _ ha ∙ ap ok (octal_two_digits a b text ha hb h))
      (printf_decode-Spells s)
printf_decode-Spells (octal_one {a} {text} ha h s) =
    printf_decode-round b'\\' _ _ (octal_round a _ ha ∙ ap ok (octal_one_digit a text ha h))
      (printf_decode-Spells s)
printf_decode-Spells (unknown {c} {text} h e s all_is) =
    printf_decode-round b'\\' (c ∷ text) _ (unknown_round c text h e) (printf_decode-Spells s)
    ∙ ap ok (sym all_is)
printf_decode-Spells trailing = unfold printf_decode decode_round escape_round in refl
