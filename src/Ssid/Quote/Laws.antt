-- ===== src/Ssid/Quote/Laws.antt =====
-- What `quote` and `psk_value` (wpa_ctrl/ssid.py) write, against what `Ssid.from_config` reads.
use wpa_ctrl_py.Base.{
  ℕ, ◌≤◌, ◌≡◌, ◌≢◌, ◌↔◌, ◌⊎◌, refl, sym, ap, ◌∙◌, inl, inr, true, false, [], ◌∷◌, ◌++◌,
  append_assoc, arith, ◌==◌, if◌then◌else◌, length, All, Bool-cases, and_true, ==_iff,
}
use wpa_ctrl_py.Result.{ok}
use wpa_ctrl_py.Text.{Text, Bytes, codes}
use wpa_ctrl_py.Text.Utf8.{encode}
use wpa_ctrl_py.Text.Utf8.Ascii.{IsAscii, encode_ascii}
use wpa_ctrl_py.Ssid.Config.{from_config}
use wpa_ctrl_py.Ssid.Config.Forms.{
  from_config_literal, from_config_bare, hex_pairs, from_bare_lem, length-hex_pairs,
}
use wpa_ctrl_py.Ssid.Config.RoundTrip.{IsBare-hex}
use wpa_ctrl_py.Ssid.Quote.{replace, quote, is_passphrase, is_raw_psk, psk_value}

-- One character of a quoted text.
abbrev pub quoted_char : ℕ → Text
quoted_char c = if c == b'\\' then codes "\\\\" else if c == b'"' then codes "\\\"" else c ∷ []

abbrev pub quoted_text : Text → Text
quoted_text [] = []
quoted_text (c ∷ text) = quoted_char c ++ quoted_text text

replace-append :
    (old : ℕ) (new a b : Text) → replace old new (a ++ b) ≡ replace old new a ++ replace old new b
unfolding replace
replace-append old new [] b = refl
replace-append old new (c ∷ a) b = rw (replace-append old new a b, append_assoc)

-- The two replacements, one after the other, as one pass.
replace-replace :
    (text : Text)
    → replace b'"' (codes "\\\"") (replace b'\\' (codes "\\\\") text) ≡ quoted_text text
unfolding replace
replace-replace [] = refl
replace-replace (c ∷ text) = ground (arith, replace-replace text)

pub quote-quoted_text : (value : Text) → quote value ≡ b'"' ∷ (quoted_text value ++ b'"' ∷ [])
unfolding quote
quote-quoted_text value = rw (replace-replace value)

-- No character is escaped.
abbrev pub IsPlain : Text → Type 0
IsPlain = All (λ c. (c ≢ b'\\') × (c ≢ b'"'))

length-quoted_text : (value : Text) → length value ≤ length (quoted_text value)
length-quoted_text [] = omega arith
length-quoted_text (c ∷ value) = ground (arith, length-quoted_text value)

IsPlain-iff : (value : Text) → IsPlain value ↔ (length (quoted_text value) ≤ length value)
IsPlain-iff [] = (λ h. omega arith, λ h. tt)
IsPlain-iff (c ∷ value) = (
  λ h. ground (arith, (IsPlain-iff value).0),
  λ h. ground (arith, (IsPlain-iff value).1, length-quoted_text value),
)

-- What `from_config` makes of a quoted value: the octets with the escapes still in them.
pub from_config-quote : (value : Text) → from_config (quote value) ≡ encode (quoted_text value)
from_config-quote value = rw quote-quoted_text (from_config_literal (quoted_text value))

IsPlain-quoted_text : (value : Text) → IsPlain value → quoted_text value ≡ value
IsPlain-quoted_text [] h = refl
IsPlain-quoted_text (c ∷ value) h = ground (arith, IsPlain-quoted_text value)

quoted_text-IsAscii : (value : Text) → All IsAscii value → All IsAscii (quoted_text value)
quoted_text-IsAscii [] h = tt
quoted_text-IsAscii (c ∷ value) h = ground (arith, quoted_text-IsAscii value)

-- For a text of ASCII, the configuration reader takes the quoted form for the text itself exactly
-- when the text holds neither a backslash nor a quote.
pub quote_exact :
    (value : Text) → All IsAscii value → (from_config (quote value) ≡ encode value) ↔ IsPlain value
quote_exact value h = (
  λ e.
      let same =
        sym (encode_ascii (quoted_text value) (quoted_text-IsAscii value h))
        ∙ sym (from_config-quote value)
        ∙ e
        ∙ encode_ascii value h in
      (IsPlain-iff value).1 (le_of_same value _ same),
  λ p. from_config-quote value ∙ ap encode (IsPlain-quoted_text value p),
)
  where
    le_of_same : (a b : Text) → ok b ≡ ok a → length b ≤ length a
    le_of_same a b e = ground arith

raw_key :
    (secret : Text)
    → is_raw_psk secret ≡ true
    → (is_passphrase secret ≡ false)
      × ((key : Bytes) × (from_config secret ≡ ok key) × (length key ≡ 32))
unfolding is_raw_psk is_passphrase
raw_key secret raw =
    let (long, hex) = and_true (length secret == 64) _ raw in
    let size : length secret ≡ 64 = (==_iff _ 64).0 long in
    (
      rw size,
      (
        hex_pairs secret,
        from_config_bare secret (IsBare-hex secret hex) ∙ from_bare_lem secret ∙ rw (size, hex),
        length-hex_pairs secret ∙ rw size,
      ),
    )

-- A raw key goes out as it is: the reader takes it for 32 octets, and it is no passphrase.
-- Every other secret goes out quoted.
pub psk_value_forms :
    (secret : Text)
    → (is_raw_psk secret ≡ true
        × (psk_value secret ≡ secret)
        × (is_passphrase secret ≡ false)
        × ((key : Bytes) × (from_config (psk_value secret) ≡ ok key) × (length key ≡ 32)))
      ⊎ ((is_raw_psk secret ≡ false)
          × (psk_value secret ≡ b'"' ∷ (quoted_text secret ++ b'"' ∷ [])))
psk_value_forms secret = elim (Bool-cases (is_raw_psk secret)) [
  | inl raw ↦
      let as_is : psk_value secret ≡ secret = unfold psk_value in rw raw in
      let (no_passphrase, key) = raw_key secret raw in inl (raw, as_is, no_passphrase, rw as_is key)
  | inr other ↦ inr (other, unfold psk_value in rw (other, quote-quoted_text))
]
