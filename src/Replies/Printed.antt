-- ===== src/Replies/Printed.antt =====
-- What the daemon prints in a block of variables, and how the accessors of wpa_ctrl/replies.py read
-- it back.
use wpa_ctrl_py.Text.Laws.{Lacks}
use wpa_ctrl_py.Base.{
  Bool, all, not, ◌==◌, ◌&&◌, and_true, suc, ℕ, ◌/◌, ◌%◌, ◌<◌, ◌≡◌, refl, ◌∙◌, inl, inr, true,
  false, [], ◌∷◌, ◌++◌, Option, none, some, arith, All, Bool-cases, Option-cases, if◌then◌else◌,
}
use wpa_ctrl_py.Base.Int.{ℤ, pos, negsuc}
use wpa_ctrl_py.Result.{ok}
use wpa_ctrl_py.Text.{Text, Bytes, text_eq, between, hex_digit, is_line_end}
use wpa_ctrl_py.Text.Number.{decimal, decimal_ℤ}
use wpa_ctrl_py.Text.Number.RoundTrip.{IsDigit, decimal-IsDigit, to_int-decimal_ℤ}
use wpa_ctrl_py.Text.Lines.{IsLine}
use wpa_ctrl_py.Text.Utf8.Ascii.{IsByte}
use wpa_ctrl_py.Dict
use wpa_ctrl_py.Dict.{Dict}
use wpa_ctrl_py.Dict.Laws.{text_eq_refl}
use wpa_ctrl_py.Ssid.Printf.Escape.{
  escape_name, escape_octet, printf_escape, printf_decode-printf_escape,
}
use wpa_ctrl_py.Replies.Parse.{parse_variables}
use wpa_ctrl_py.Replies.Parse.Blocks.{Variables, IsVariable, block, last_value, get-parse_variables}
use wpa_ctrl_py.Replies.Fields.{int_field, ssid_field}

-- No variable has this key.
abbrev pub Without : Text → Variables → Type 0
Without key = All (λ v. text_eq v.0 key ≡ false)

last_value-Without :
    (key : Text) (found : Option Text) (after : Variables)
    → Without key after
    → last_value key found after ≡ found
last_value-Without key found [] h = refl
last_value-Without key found (v ∷ after) h = rw h.0 (last_value-Without key found after h.1)

last_value-append :
    (key : Text) (found : Option Text) (before after : Variables)
    → last_value key found (before ++ after) ≡ last_value key (last_value key found before) after
last_value-append key found [] after = refl
last_value-append key found (v ∷ before) after =
    last_value-append key (if text_eq v.0 key then some v.1 else found) before after

-- A variable whose key does not come again is found.
pub get-block :
    (key value : Text) (before after : Variables)
    → All IsVariable (before ++ (key, value) ∷ after)
    → Without key after
    → Dict.get key (parse_variables (block (before ++ (key, value) ∷ after))) ≡ some value
get-block key value before after h later =
    get-parse_variables key (before ++ (key, value) ∷ after) h
    ∙ last_value-append key none before ((key, value) ∷ after)
    ∙ rw (text_eq_refl key) (last_value-Without key (some value) after later)

pub int_field-decimal :
    (d : Dict) (key : Text) (z : ℤ)
    → Dict.get key d ≡ some (decimal_ℤ z)
    → int_field d key 10 ≡ ok (some z)
unfolding int_field
int_field-decimal d key z there = rw (there, to_int-decimal_ℤ z) refl

pub ssid_field-escaped :
    (d : Dict) (key : Text) (octets : Bytes)
    → All IsByte octets
    → Dict.get key d ≡ some (printf_escape octets)
    → ssid_field d key ≡ ok (some octets)
unfolding ssid_field
ssid_field-escaped d key octets h there = rw (there, printf_decode-printf_escape octets h) refl

pub printable-no_end : (c : ℕ) → between 32 126 c ≡ true → is_line_end c ≡ false
unfolding is_line_end
printable-no_end c h = ground arith

hex_digit-no_end : (n : ℕ) → n < 16 → is_line_end (hex_digit n) ≡ false
unfolding hex_digit is_line_end
hex_digit-no_end n h = ground arith

escape_name-no_end : (b name : ℕ) → escape_name b ≡ some name → is_line_end name ≡ false
unfolding is_line_end
escape_name-no_end b name h = ground arith

escape_octet-IsLine : (b : ℕ) (text : Text) → IsByte b → IsLine text → IsLine (escape_octet b text)
unfolding escape_octet
escape_octet-IsLine b text h line = elim (Option-cases (escape_name b)) [
  | inl e ↦ elim (Bool-cases (between 32 126 b)) [
    | inl p ↦ rw (e, escape_octet, p) (printable-no_end b p, line)
    | inr p ↦
        rw (e, escape_octet, p)
          (
            printable-no_end b'\\' refl,
            (
              printable-no_end b'x' refl,
              (
                hex_digit-no_end (b / 16) (omega arith),
                (hex_digit-no_end (b % 16) (omega arith), line),
              ),
            ),
          )
  ]
  | inr (name, e) ↦
      rw (e, escape_octet) (printable-no_end b'\\' refl, (escape_name-no_end b name e, line))
]

-- The escaping leaves no end of a line.
pub printf_escape-IsLine : (octets : Bytes) → All IsByte octets → IsLine (printf_escape octets)
printf_escape-IsLine [] h = tt
printf_escape-IsLine (b ∷ octets) h =
    escape_octet-IsLine b (printf_escape octets) h.0 (printf_escape-IsLine octets h.1)

digits-IsLine : (text : Text) → All IsDigit text → IsLine text
digits-IsLine [] h = tt
digits-IsLine (c ∷ text) h = (printable-no_end c (ground arith), digits-IsLine text h.1)

pub decimal_ℤ-IsLine : (z : ℤ) → IsLine (decimal_ℤ z)
unfolding decimal_ℤ
decimal_ℤ-IsLine (pos n) = digits-IsLine (decimal n) (decimal-IsDigit n)
decimal_ℤ-IsLine (negsuc n) =
    (printable-no_end b'-' refl, digits-IsLine (decimal (suc n)) (decimal-IsDigit (suc n)))

-- A key that may stand in front of the equals sign.
abbrev pub is_key : Text → Bool
is_key = all (λ c. not (c == b'=') && between 32 126 c)

is_key-Lacks : (key : Text) → is_key key ≡ true → Lacks b'=' key × IsLine key
is_key-Lacks [] h = (tt, tt)
is_key-Lacks (c ∷ key) h =
    let (first, rest) = and_true (not (c == b'=') && between 32 126 c) (is_key key) h in
    let (lacks, line) = is_key-Lacks key rest in
    ((ground arith, lacks), (printable-no_end c (ground arith), line))

pub is_key-IsVariable :
    (key value : Text) → is_key key ≡ true → IsLine value → IsVariable (key, value)
is_key-IsVariable key value h line = let (lacks, kept) = is_key-Lacks key h in (lacks, kept, line)
