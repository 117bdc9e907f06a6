-- ===== src/Event/View/Disabled.antt =====
-- The SSID of an event that a network was disabled (wpa_ctrl/events.py), through both of its
-- spellings: quoted in the payload, and escaped between the quotes.
use wpa_ctrl_py.Base.{
  ℕ, ◌/◌, ◌%◌, ◌<◌, ◌≡◌, ◌≢◌, refl, ap, ◌∙◌, inl, inr, false, List, [], ◌∷◌, ◌++◌, none, some,
  arith, All, All-append, Bool-cases, Option-cases,
}
use wpa_ctrl_py.Result.{Result, ok, ◌>>=◌}
use wpa_ctrl_py.Text.{Text, Bytes, codes, text_eq, between, hex_digit}
use wpa_ctrl_py.Text.Utf8.Ascii.{IsByte}
use wpa_ctrl_py.Dict
use wpa_ctrl_py.Dict.{Dict}
use wpa_ctrl_py.Dict.Laws.{get-set, text_eq_refl}
use wpa_ctrl_py.Ssid.Printf.Escape.{escape_name, escape_octet, printf_escape}
use wpa_ctrl_py.Replies.Printed.{ssid_field-escaped}
use wpa_ctrl_py.Event.{Event}
use wpa_ctrl_py.Event.Params.{parse_params}
use wpa_ctrl_py.Event.Split.Laws.{IsEscaped, none_left, char, pair}
use wpa_ctrl_py.Event.Params.Fields.{
  Field, quoted, key_of, value_of, IsField, payload, assign, parse_params-payload,
}
use wpa_ctrl_py.Event.View.{from_event, ssid_temp_disabled, disabled_ssid_bytes}

IsEscaped-digit : (n : ℕ) {text : Text} → n < 16 → IsEscaped text → IsEscaped (hex_digit n ∷ text)
unfolding hex_digit
IsEscaped-digit n h s = char (ground arith) (ground arith) s

escape_name-quote : (b : ℕ) → escape_name b ≡ none → (b ≢ b'\\') × (b ≢ b'"')
escape_name-quote b h = (ground arith, ground arith)

IsEscaped-escape_octet :
    (b : ℕ) {text : Text} → IsByte b → IsEscaped text → IsEscaped (escape_octet b text)
unfolding escape_octet
IsEscaped-escape_octet b h s = elim (Option-cases (escape_name b)) [
  | inl e ↦ elim (Bool-cases (between 32 126 b)) [
    | inl p ↦
        rw (e, escape_octet, p) (let (slash, mark) = escape_name-quote b e in char slash mark s)
    | inr p ↦
        rw (e, escape_octet, p)
          (pair (IsEscaped-digit (b / 16) (omega arith) (IsEscaped-digit (b % 16) (omega arith) s)))
  ]
  | inr (name, e) ↦ rw (e, escape_octet) (pair s)
]

printf_escape-IsEscaped : (octets : Bytes) → All IsByte octets → IsEscaped (printf_escape octets)
printf_escape-IsEscaped [] h = none_left
printf_escape-IsEscaped (b ∷ octets) h =
    IsEscaped-escape_octet b h.0 (printf_escape-IsEscaped octets h.1)

-- No field has this key.
abbrev pub Without : Text → List Field → Type 0
Without key = All (λ f. text_eq (key_of f) key ≡ false)

get-assign :
    (key : Text) (d : Dict) (fields : List Field)
    → Without key fields
    → Dict.get key (assign d fields) ≡ Dict.get key d
get-assign key d [] h = refl
get-assign key d (f ∷ fields) h =
    get-assign key (Dict.set (key_of f) (value_of f) d) fields h.1
    ∙ get-set key (key_of f) (value_of f) d
    ∙ rw h.0 refl

assign-append :
    (d : Dict) (before after : List Field)
    → assign d (before ++ after) ≡ assign (assign d before) after
assign-append d [] after = refl
assign-append d (f ∷ before) after = assign-append (Dict.set (key_of f) (value_of f) d) before after

abbrev pub ssid_key : Text
ssid_key = codes "ssid"

-- The field that the daemon writes for an SSID.
abbrev pub ssid_entry : Bytes → Field
ssid_entry octets = quoted ssid_key (printf_escape octets)

ssid_entry-IsField : (octets : Bytes) → All IsByte octets → IsField (ssid_entry octets)
ssid_entry-IsField octets h = (
  (
    refl,
    (
      (omega arith, omega arith),
      ((omega arith, omega arith), ((omega arith, omega arith), ((omega arith, omega arith), tt))),
    ),
    (omega arith, (omega arith, (omega arith, (omega arith, tt)))),
  ),
  printf_escape-IsEscaped octets h,
)

from_event-named :
    (e : Event) (name : Text) → e.name ≡ name → from_event name e ≡ ok (parse_params e.params)
unfolding from_event
from_event-named e name same = rw (same, text_eq_refl name) refl

get-entry :
    (before after : List Field) (octets : Bytes)
    → Without ssid_key after
    → Dict.get ssid_key (assign [] (before ++ ssid_entry octets ∷ after))
      ≡ some (printf_escape octets)
get-entry before after octets later =
    ap (Dict.get ssid_key) (assign-append [] before (ssid_entry octets ∷ after))
    ∙ get-assign ssid_key _ after later
    ∙ get-set ssid_key ssid_key (printf_escape octets) (assign [] before)
    ∙ rw (text_eq_refl ssid_key) refl

-- Whatever octets an SSID has, quotes, spaces and bytes that are no text among them, the view of an
-- event whose payload holds the SSID quoted and escaped answers these octets, if no later field has
-- the same key.
pub disabled_ssid_bytes-payload :
    (before after : List Field) (octets : Bytes) (e : Event)
    → All IsField before
    → All IsField after
    → Without ssid_key after
    → All IsByte octets
    → e.name ≡ ssid_temp_disabled
    → e.params ≡ payload (before ++ ssid_entry octets ∷ after)
    → (from_event ssid_temp_disabled e >>= λ d. disabled_ssid_bytes d) ≡ ok (some octets)
disabled_ssid_bytes-payload before after octets e hb ha later h name params =
    let fields = before ++ ssid_entry octets ∷ after in
    let entry =
      All-append IsField before (ssid_entry octets ∷ after) hb (ssid_entry-IsField octets h, ha) in
    let read = ap parse_params params ∙ parse_params-payload fields entry in
    ap (λ (r : Result Dict). r >>= λ d. disabled_ssid_bytes d)
      (from_event-named e ssid_temp_disabled name)
    ∙ ap disabled_ssid_bytes read
    ∙ ssid_field-escaped (assign [] fields) ssid_key octets h (get-entry before after octets later)
