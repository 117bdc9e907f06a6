-- ===== src/Text/Utf8/RoundTrip.antt =====
-- Decoding undoes encoding.
use wpa_ctrl_py.Base.{
  ltb→lt, Bool-cases, lt→ltb, append_assoc, append-nil, sym, ℕ, ◌+◌, ◌-◌, ◌*◌, ◌/◌, ◌%◌, ◌<◌, ◌≤◌,
  ◌≡◌, inl, inr, refl, ap, ◌∙◌, true, false, [], ◌∷◌, ◌++◌, some, map, arith, All, ltb, ltb→lt,
  lt→ltb, ◌==◌, if◌then◌else◌, Bool-cases,
}
use wpa_ctrl_py.Result.{ok}
use wpa_ctrl_py.Text.{Text, Bytes, between}
use wpa_ctrl_py.Text.Utf8.{
  encode_char, encode, idle, opened, start_byte, next_byte, items_from, all_some, replaced, decode,
  decode_replace,
}
use wpa_ctrl_py.Text.Utf8.Ascii.{IsScalar}

-- The bytes are read as one character, whatever follows.
abbrev Reads : ℕ → Bytes → Type 0
Reads c bytes = (rest : Bytes) → items_from idle (bytes ++ rest) ≡ some c ∷ items_from idle rest

abbrev IsCont : ℕ → Type 0
IsCont b = between 0x80 0xbf b ≡ true

two_bytes :
    (b b1 v : ℕ)
    → start_byte b ≡ ([], opened 1 v 0x80 0xbf)
    → IsCont b1
    → Reads (v * 64 + (b1 - 0x80)) (b ∷ b1 ∷ [])
unfolding items_from next_byte
two_bytes b b1 v h h1 rest = rw (h, h1) refl

three_bytes :
    (b b1 b2 v low high : ℕ)
    → start_byte b ≡ ([], opened 2 v low high)
    → between low high b1 ≡ true
    → IsCont b2
    → Reads ((v * 64 + (b1 - 0x80)) * 64 + (b2 - 0x80)) (b ∷ b1 ∷ b2 ∷ [])
unfolding items_from next_byte
three_bytes b b1 b2 v low high h h1 h2 rest = rw (h, h1, h2) refl

four_bytes :
    (b b1 b2 b3 v low high : ℕ)
    → start_byte b ≡ ([], opened 3 v low high)
    → between low high b1 ≡ true
    → IsCont b2
    → IsCont b3
    → Reads (((v * 64 + (b1 - 0x80)) * 64 + (b2 - 0x80)) * 64 + (b3 - 0x80)) (b ∷ b1 ∷ b2 ∷ b3 ∷ [])
unfolding items_from next_byte
four_bytes b b1 b2 b3 v low high h h1 h2 h3 rest = rw (h, h1, h2, h3) refl

-- A character as the digits that its bytes hold.
two-Reads : (h d : ℕ) → 2 ≤ h → h < 32 → d < 64 → Reads (h * 64 + d) ((0xc0 + h) ∷ (0x80 + d) ∷ [])
unfolding start_byte
two-Reads h d low high digit rest =
    let start : start_byte (0xc0 + h) ≡ ([], opened 1 h 0x80 0xbf) = ground arith in
    let value : h * 64 + (0x80 + d - 0x80) ≡ h * 64 + d = omega arith in
    two_bytes (0xc0 + h) (0x80 + d) h start (ground arith) rest
    ∙ ap (λ (c : ℕ). some c ∷ items_from idle rest) value

abbrev low_of : ℕ → ℕ
low_of h = if h == 0 then 0xa0 else 0x80

abbrev high_of : ℕ → ℕ
high_of h = if h == 13 then 0x9f else 0xbf

three-start : (h : ℕ) → h < 16 → start_byte (0xe0 + h) ≡ ([], opened 2 h (low_of h) (high_of h))
unfolding start_byte
three-start h small = ground arith

three-Reads :
    (h d1 d2 : ℕ)
    → h < 16
    → d1 < 64
    → d2 < 64
    → between (low_of h) (high_of h) (0x80 + d1) ≡ true
    → Reads ((h * 64 + d1) * 64 + d2) ((0xe0 + h) ∷ (0x80 + d1) ∷ (0x80 + d2) ∷ [])
three-Reads h d1 d2 small digit1 digit2 within rest =
    let value : (h * 64 + (0x80 + d1 - 0x80)) * 64 + (0x80 + d2 - 0x80) ≡ (h * 64 + d1) * 64 + d2 =
      omega arith in
    three_bytes (0xe0 + h) (0x80 + d1) (0x80 + d2) h (low_of h) (high_of h) (three-start h small)
      within (ground arith) rest
    ∙ ap (λ (c : ℕ). some c ∷ items_from idle rest) value

abbrev low_of_four : ℕ → ℕ
low_of_four h = if h == 0 then 0x90 else 0x80

abbrev high_of_four : ℕ → ℕ
high_of_four h = if h == 4 then 0x8f else 0xbf

four-start :
    (h : ℕ) → h < 5 → start_byte (0xf0 + h) ≡ ([], opened 3 h (low_of_four h) (high_of_four h))
unfolding start_byte
four-start h small = ground arith

four-Reads :
    (h d1 d2 d3 : ℕ)
    → h < 5
    → d1 < 64
    → d2 < 64
    → d3 < 64
    → between (low_of_four h) (high_of_four h) (0x80 + d1) ≡ true
    → Reads
        (((h * 64 + d1) * 64 + d2) * 64 + d3)
        ((0xf0 + h) ∷ (0x80 + d1) ∷ (0x80 + d2) ∷ (0x80 + d3) ∷ [])
four-Reads h d1 d2 d3 small digit1 digit2 digit3 within rest =
    let value : ((h * 64 + (0x80 + d1 - 0x80)) * 64 + (0x80 + d2 - 0x80)) * 64 + (0x80 + d3 - 0x80)
        ≡ ((h * 64 + d1) * 64 + d2) * 64 + d3 =
      omega arith in
    four_bytes (0xf0 + h) (0x80 + d1) (0x80 + d2) (0x80 + d3) h (low_of_four h) (high_of_four h)
      (four-start h small) within (ground arith) (ground arith) rest
    ∙ ap (λ (c : ℕ). some c ∷ items_from idle rest) value

one-Reads : (c : ℕ) → c < 0x80 → Reads c (c ∷ [])
unfolding items_from next_byte start_byte
one-Reads c small rest = rw (lt→ltb c 0x80 small) refl

digits_two : (c : ℕ) → c / 64 * 64 + c % 64 ≡ c
digits_two c = omega arith

digits_three : (c : ℕ) → (c / 4096 * 64 + c / 64 % 64) * 64 + c % 64 ≡ c
digits_three c = omega arith

digits_four : (c : ℕ) → ((c / 262144 * 64 + c / 4096 % 64) * 64 + c / 64 % 64) * 64 + c % 64 ≡ c
digits_four c = omega arith

within_three :
    (c : ℕ)
    → 0x800 ≤ c
    → c < 0x1_0000
    → between 0xd800 0xdfff c ≡ false
    → between (low_of (c / 4096)) (high_of (c / 4096)) (0x80 + c / 64 % 64) ≡ true
within_three c big small scalar = ground arith

within_four :
    (c : ℕ)
    → 0x1_0000 ≤ c
    → c < 0x11_0000
    → between (low_of_four (c / 262144)) (high_of_four (c / 262144)) (0x80 + c / 4096 % 64) ≡ true
within_four c big small = ground arith

-- Every scalar value has an encoding, which is read as it.
encode_char-Reads :
    (c : ℕ) → IsScalar c → (bytes : Bytes) × (encode_char c ≡ ok bytes) × Reads c bytes
unfolding encode_char
encode_char-Reads c (small, scalar) = elim (Bool-cases (ltb c 0x80)) [
  | inl one ↦ (c ∷ [], rw one refl, one-Reads c (ltb→lt c 0x80 one))
  | inr more ↦ elim (Bool-cases (ltb c 0x800)) [
    | inl two ↦ (
      (0xc0 + c / 64) ∷ (0x80 + c % 64) ∷ [],
      rw (more, two) refl,
      λ rest.
          two-Reads (c / 64) (c % 64) (ground arith) (ground arith) (omega arith) rest
          ∙ ap (λ (d : ℕ). some d ∷ items_from idle rest) (digits_two c),
    )
    | inr more' ↦ elim (Bool-cases (ltb c 0x1_0000)) [
      | inl three ↦ (
        (0xe0 + c / 4096) ∷ (0x80 + c / 64 % 64) ∷ (0x80 + c % 64) ∷ [],
        rw (more, more', scalar, three) refl,
        λ rest.
            three-Reads (c / 4096) (c / 64 % 64) (c % 64) (ground arith) (omega arith) (omega arith)
              (within_three c (ground arith) (ltb→lt c 0x1_0000 three) scalar) rest
            ∙ ap (λ (d : ℕ). some d ∷ items_from idle rest) (digits_three c),
      )
      | inr four ↦ (
        (0xf0 + c / 262144) ∷ (0x80 + c / 4096 % 64) ∷ (0x80 + c / 64 % 64) ∷ (0x80 + c % 64) ∷ [],
        rw (more, more', scalar, four) refl,
        λ rest.
            four-Reads (c / 262144) (c / 4096 % 64) (c / 64 % 64) (c % 64) (omega arith)
              (omega arith) (omega arith) (omega arith) (within_four c (ground arith) small) rest
            ∙ ap (λ (d : ℕ). some d ∷ items_from idle rest) (digits_four c),
      )
    ]
  ]
]

-- A text without surrogates encodes, and its bytes are read as its characters.
encode-items :
    (text : Text)
    → All IsScalar text
    → (bytes : Bytes) × (encode text ≡ ok bytes)
      × ((rest : Bytes)
          → items_from idle (bytes ++ rest) ≡ map (λ c. some c) text ++ items_from idle rest)
unfolding encode
encode-items [] h = ([], refl, λ rest. refl)
encode-items (c ∷ text) (scalar, h) =
    let (head, encoded, reads) = encode_char-Reads c scalar in
    let (tail, encoded', reads') = encode-items text h in
    (
      head ++ tail,
      rw (encoded, encoded') refl,
      λ rest.
          ap (items_from idle) (append_assoc head tail rest)
          ∙ reads (tail ++ rest)
          ∙ ap (◌∷◌ (some c)) (reads' rest),
    )

all_some-map : (text : Text) → all_some (map (λ c. some c) text) ≡ some text
unfolding all_some
all_some-map [] = refl
all_some-map (c ∷ text) = rw (all_some-map text) refl

replaced-map : (text : Text) → map replaced (map (λ c. some c) text) ≡ text
replaced-map [] = refl
replaced-map (c ∷ text) = ap (◌∷◌ c) (replaced-map text)

-- Decoded, strictly or with replacement, what a text without surrogates encodes to is the text.
pub decode-encode :
    (text : Text)
    → All IsScalar text
    → (bytes : Bytes) × (encode text ≡ ok bytes)
      × (decode bytes ≡ some text)
      × (decode_replace bytes ≡ text)
unfolding decode decode_replace items_from
decode-encode text h =
    let (bytes, encoded, reads) = encode-items text h in
    let items =
      ap (items_from idle) (sym (append-nil bytes))
      ∙ reads []
      ∙ append-nil (map (λ c. some c) text) in
    (
      bytes,
      encoded,
      ap all_some items ∙ all_some-map text,
      ap (map replaced) items ∙ replaced-map text,
    )
