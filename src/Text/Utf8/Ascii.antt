-- ===== src/Text/Utf8/Ascii.antt =====
-- Encoding texts of ASCII and of Unicode scalar values.
use wpa_ctrl_py.Base.{ℕ, ◌<◌, ◌≤◌, ◌≡◌, refl, false, [], ◌∷◌, arith, length, All}
use wpa_ctrl_py.Result.{Result, ok, err}
use wpa_ctrl_py.Text.{Text, Bytes, between}
use wpa_ctrl_py.Text.Utf8.{encode_char, encode}

abbrev pub IsAscii : ℕ → Type 0
IsAscii c = c < 128

-- A code point that is no surrogate.
abbrev pub IsScalar : ℕ → Type 0
IsScalar c = (c < 0x11_0000) × (between 0xd800 0xdfff c ≡ false)

abbrev pub IsByte : ℕ → Type 0
IsByte b = b < 256

pub encode_char_ascii : (c : ℕ) → IsAscii c → encode_char c ≡ ok (c ∷ [])
unfolding encode_char
encode_char_ascii c h = ground arith

-- ASCII encodes to itself.
pub encode_ascii : (text : Text) → All IsAscii text → encode text ≡ ok text
unfolding encode
encode_ascii [] h = refl
encode_ascii (c ∷ text) h = rw (encode_char_ascii c h.0, encode_ascii text h.1)

-- The result is there, and is at most `n` bytes.
abbrev pub Fits : ℕ → Result Bytes → Type 0
Fits n (ok bytes) = All IsByte bytes × (length bytes ≤ n)
Fits n (err e) = ⊥

-- A scalar value encodes to one to four bytes.
pub encode_char-Fits : (c : ℕ) → IsScalar c → Fits 4 (encode_char c)
unfolding encode_char
encode_char-Fits c h = ground arith
