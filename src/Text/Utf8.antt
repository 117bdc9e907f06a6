-- ===== src/Text/Utf8.antt =====
-- `str.encode()` and `bytes.decode()` in UTF-8, the latter strictly or with errors="replace".
pub mod Ascii
pub mod RoundTrip
use wpa_ctrl_py.Base.{
  ℕ, zero, suc, ◌+◌, ◌-◌, ◌*◌, ◌/◌, ◌%◌, Bool, true, false, List, [], ◌∷◌, ◌++◌, Option, none, some,
  map, ltb, leb, ◌==◌, if◌then◌else◌,
}
use wpa_ctrl_py.Result.{Result, ok, err, unicode_error, ◌>>=◌}
use wpa_ctrl_py.Text.{Text, Bytes, between}

-- The bytes of one code point; a surrogate has none.
unfoldable pub encode_char : ℕ → Result Bytes
encode_char c =
    if ltb c 0x80
    then ok (c ∷ [])
    else if ltb c 0x800
    then ok ((0xc0 + c / 64) ∷ (0x80 + c % 64) ∷ [])
    else if between 0xd800 0xdfff c
    then err unicode_error
    else if ltb c 0x1_0000
    then ok ((0xe0 + c / 4096) ∷ (0x80 + c / 64 % 64) ∷ (0x80 + c % 64) ∷ [])
    else ok
        ((0xf0 + c / 262144) ∷ (0x80 + c / 4096 % 64) ∷ (0x80 + c / 64 % 64) ∷ (0x80 + c % 64) ∷ [])

-- `text.encode()`.
unfoldable pub encode : Text → Result Bytes
unfolding encode_char
encode [] = ok []
encode (c ∷ text) = encode_char c >>= λ bytes. encode text >>= λ rest. ok (bytes ++ rest)

-- A sequence that is being read: the bytes it still wants, its value so far, and the range that
-- its next byte must lie in.
pub record Pending : Type 0 where
  pub wants : ℕ
  pub value : ℕ
  pub low : ℕ
  pub high : ℕ

abbrev pub idle : Pending
idle = record { wants = 0; value = 0; low = 0x80; high = 0xbf }

abbrev pub opened : ℕ → ℕ → ℕ → ℕ → Pending
opened wants value low high = record { wants = wants; value = value; low = low; high = high }

-- What one byte yields: code points, `none` for a sequence that is in error, and the state.
abbrev pub Yield : Type 0
Yield = List (Option ℕ) × Pending

start_byte : ℕ → Yield
start_byte b =
    if ltb b 0x80
    then (some b ∷ [], idle)
    else if between 0xc2 0xdf b
    then ([], opened 1 (b - 0xc0) 0x80 0xbf)
    else if b == 0xe0
    then ([], opened 2 0 0xa0 0xbf)
    else if b == 0xed
    then ([], opened 2 0xd 0x80 0x9f)
    else if between 0xe1 0xef b
    then ([], opened 2 (b - 0xe0) 0x80 0xbf)
    else if b == 0xf0
    then ([], opened 3 0 0x90 0xbf)
    else if between 0xf1 0xf3 b
    then ([], opened 3 (b - 0xf0) 0x80 0xbf)
    else if b == 0xf4
    then ([], opened 3 4 0x80 0x8f)
    else (none ∷ [], idle)

-- A byte that does not continue its sequence ends it in error, and is read as a first byte.
next_byte : Pending → ℕ → ℕ → Yield
unfolding start_byte
next_byte p zero b = start_byte b
next_byte p (suc more) b =
    let value = p.value * 64 + (b - 0x80) in
    if between p.low p.high b
    then (if more == 0 then (some value ∷ [], idle) else ([], opened more value 0x80 0xbf))
    else (let (yielded, p') = start_byte b in (none ∷ yielded, p'))

items_from : Pending → Bytes → List (Option ℕ)
unfolding next_byte
items_from p [] = if p.wants == 0 then [] else none ∷ []
items_from p (b ∷ bytes) =
    let (yielded, p') = next_byte p p.wants b in yielded ++ items_from p' bytes

all_some : List (Option ℕ) → Option Text
all_some [] = some []
all_some (none ∷ items) = none
all_some (some c ∷ items) = elim (all_some items) [ none ↦ none | some text ↦ some (c ∷ text) ]

abbrev replaced : Option ℕ → ℕ
replaced none = 0xfffd
replaced (some c) = c

-- `data.decode()`, where `none` is the UnicodeDecodeError.
unfoldable pub decode : Bytes → Option Text
unfolding items_from all_some
decode bytes = all_some (items_from idle bytes)

-- `data.decode(errors="replace")`.
unfoldable pub decode_replace : Bytes → Text
unfolding items_from
decode_replace bytes = map replaced (items_from idle bytes)
