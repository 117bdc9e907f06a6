-- ===== src/Ssid/Printf/Total.antt =====
-- `printf_decode` is total on texts of scalar values, and yields octets.
use wpa_ctrl_py.Base.{
  ℕ, zero, suc, ◌+◌, ◌-◌, ◌*◌, ◌≤◌, ◌<◌, ◌≡◌, refl, inl, inr, true, [], ◌∷◌, ◌++◌, some, arith,
  ◌==◌, length, All, All-append, Bool-cases, Option-cases, ==_iff, length-append,
}
use wpa_ctrl_py.Result.{Result, ok, err}
use wpa_ctrl_py.Text.{Text, Bytes, is_hex_digit, hex_value}
use wpa_ctrl_py.Text.Utf8.Ascii.{IsScalar, IsByte, encode_char-Fits}
use wpa_ctrl_py.Ssid.Decode.{
  Round, printf_escapes, hex_digits, octal_digits, escape_round, decode_round, printf_decode,
}
use wpa_ctrl_py.Ssid.Printf.Loop.{printf_decode-round}

-- A round on a text that ends no later than `text` does.
record IsSound (text : Text) (r : Round) : Type 0 where
  octets : All IsByte r.octets
  few : length r.octets ≤ 4
  unread : All IsScalar r.unread
  shrinks : length r.unread ≤ length text

abbrev Sound : Text → Result Round → Type 0
Sound text (ok r) = IsSound text r
Sound text (err e) = ⊥

octal_digits-IsSound :
    (n value : ℕ) (text : Text) → All IsScalar text → IsSound text (octal_digits n value text)
unfolding octal_digits
octal_digits-IsSound zero value text h = ground arith
octal_digits-IsSound (suc n) value [] h = ground arith
octal_digits-IsSound (suc n) value (c ∷ text) h =
    ground (arith, octal_digits-IsSound n (value * 8 + (c - b'0')) text h.1)

hex_value-lt : (c : ℕ) → is_hex_digit c ≡ true → hex_value c < 16
unfolding hex_value
hex_value-lt c h = ground arith

hex_round-Sound :
    (text : Text) → All IsScalar text → Sound (b'x' ∷ text) (escape_round (b'x' ∷ text))
unfolding escape_round hex_digits
hex_round-Sound [] h = ground arith
hex_round-Sound (c ∷ []) h = ground (arith, hex_value-lt c)
hex_round-Sound (c ∷ d ∷ text) h = ground (arith, hex_value-lt c, hex_value-lt d)

printf_escapes-byte : (c octet : ℕ) → printf_escapes c ≡ some octet → octet < 256
printf_escapes-byte c octet h = ground arith

escape_round-Sound : (text : Text) → All IsScalar text → Sound text (escape_round text)
unfolding escape_round
escape_round-Sound [] h = ground arith
escape_round-Sound (c ∷ text) h = elim (Option-cases (printf_escapes c)) [
  | inl e ↦ elim (Bool-cases (c == b'x')) [
    | inl x ↦ rw ((==_iff c b'x').0 x) (hex_round-Sound text h.1)
    | inr other ↦
        rw (e, escape_round)
          (ground (arith, octal_digits-IsSound 3 0 (c ∷ text) h, encode_char-Fits c h.0))
  ]
  | inr (octet, e) ↦ rw (e, escape_round) (ground (arith, printf_escapes-byte c octet))
]

decode_round-Sound :
    (c : ℕ) (text : Text) → IsScalar c → All IsScalar text → Sound text (decode_round c text)
unfolding decode_round
decode_round-Sound c text hc h = ground (arith, escape_round-Sound text h, encode_char-Fits c hc)

Sound-ok :
    (text : Text) (r : Result Round) → Sound text r → (s : Round) × (r ≡ ok s) × IsSound text s
Sound-ok text (ok r) h = (r, refl, h)
Sound-ok text (err e) h = absurd h

abbrev Octets : Text → Type 0
Octets text =
    (octets : Bytes) × (printf_decode text ≡ ok octets)
    × All IsByte octets
    × (length octets ≤ 4 * length text)

octets_below : (n : ℕ) (text : Text) → length text ≤ n → All IsScalar text → Octets text
octets_below n [] le h = ([], unfold printf_decode in refl, tt, omega arith)
octets_below zero (c ∷ text) le h = absurd (omega arith)
octets_below (suc n) (c ∷ text) le h =
    let (r, e, sound) = Sound-ok text _ (decode_round-Sound c text h.0 h.1) in
    let (octets, d, bytes, few) = octets_below n r.unread (omega arith) sound.unread in
    (
      r.octets ++ octets,
      printf_decode-round c text r e d,
      All-append IsByte r.octets octets sound.octets bytes,
      omega (arith, length-append r.octets octets),
    )

-- The loop ends on a text without surrogates, which is what the decoder of the transport yields, and
-- gives octets, at most four for each of its characters. A loop that had not ended would be
-- `err endless`.
pub printf_decode-octets :
    (text : Text)
    → All IsScalar text
    → (octets : Bytes) × (printf_decode text ≡ ok octets)
      × All IsByte octets
      × (length octets ≤ 4 * length text)
printf_decode-octets text h = octets_below (length text) text (omega arith) h
