-- ===== src/Text.antt =====
-- The operations of Python's `str` and `bytes` that the program uses. A text is the list of its
-- code points, and bytes are the list of their values.
pub mod Lines
pub mod Joining
pub mod Utf8
pub mod Number
pub mod Upper
pub mod Constants
pub mod Stripping
pub mod Laws
use Prim.Native.Char.{code}
use Prim.Native.String.{String}
use wpa_ctrl_py.Base.{
  ℕ, ◌+◌, ◌-◌, ◌*◌, ◌≡◌, Bool, true, false, ◌&&◌, ◌||◌, not, List, [], ◌∷◌, ◌++◌, Option, none,
  some, ltb, leb, ◌==◌, if◌then◌else◌, is_empty, ◌/◌, ◌%◌,
}
use wpa_ctrl_py.Result.{Result, ok, err, value_error, ◌>>=◌}

abbrev pub Text : Type 0
Text = List ℕ

abbrev pub Bytes : Type 0
Bytes = List ℕ

-- The code points of a literal.
abbrev pub codes : String → Text
codes String.[] = []
codes (String.◌∷◌ c s) = code c ∷ codes s

abbrev pub between : ℕ → ℕ → ℕ → Bool
between lo hi c = leb lo c && leb c hi

-- `a == b` on texts.
unfoldable pub text_eq : Text → Text → Bool
text_eq [] [] = true
text_eq (x ∷ xs) (y ∷ ys) = x == y && text_eq xs ys
text_eq _ _ = false

-- `text.startswith(prefix)`.
unfoldable pub starts_with : Text → Text → Bool
starts_with [] text = true
starts_with (p ∷ prefix) [] = false
starts_with (p ∷ prefix) (c ∷ text) = p == c && starts_with prefix text

-- `part in text`.
unfoldable pub contains : Text → Text → Bool
unfolding starts_with
contains part [] = starts_with part []
contains part (c ∷ text) = starts_with part (c ∷ text) || contains part text

-- What `text.partition(sep)` returns: the part before the first separator, whether there is one,
-- and the part behind it.
pub record Partition : Type 0 where
  pub before : Text
  pub found : Bool
  pub after : Text

unfoldable pub partition : ℕ → Text → Partition
partition sep [] = record { before = []; found = false; after = [] }
partition sep (c ∷ text) =
    let rest = partition sep text in
    if c == sep
    then record { before = []; found = true; after = text }
    else record rest { before = c ∷ rest.before }

-- `text.rpartition(sep)`: around the last separator; with none, all of it is `after`.
unfoldable pub rpartition : ℕ → Text → Partition
rpartition sep [] = record { before = []; found = false; after = [] }
rpartition sep (c ∷ text) =
    let rest = rpartition sep text in
    if rest.found
    then record rest { before = c ∷ rest.before }
    else if c == sep
    then record { before = []; found = true; after = text }
    else record { before = []; found = false; after = c ∷ text }

-- Puts a character in front of the first piece.
abbrev pub cons_head : ℕ → List Text → List Text
cons_head c [] = (c ∷ []) ∷ []
cons_head c (p ∷ ps) = (c ∷ p) ∷ ps

-- `text.split(sep)` at a one-character separator.
unfoldable pub split : ℕ → Text → List Text
split sep [] = [] ∷ []
split sep (c ∷ text) = let rest = split sep text in if c == sep then [] ∷ rest else cons_head c rest

-- `sep.join(parts)`.
unfoldable pub join : Text → List Text → Text
join sep [] = []
join sep (p ∷ []) = p
join sep (p ∷ q ∷ ps) = p ++ (sep ++ join sep (q ∷ ps))

-- `str.isspace` of a character.
unfoldable pub is_space : ℕ → Bool
is_space c =
    between 9 13 c
    || between 28 32 c
    || c == 133
    || c == 160
    || c == 5760
    || between 8192 8202 c
    || between 8232 8233 c
    || c == 8239
    || c == 8287
    || c == 12288

-- The white space of ASCII, which is what `bytes.isspace` and `bytes.fromhex` know.
abbrev pub is_ascii_space : ℕ → Bool
is_ascii_space c = between 9 13 c || c == 32

-- The characters that end a line for `str.splitlines`; "\r\n" is one end.
unfoldable pub is_line_end : ℕ → Bool
is_line_end c = between 10 13 c || between 28 30 c || c == 133 || between 8232 8233 c

-- The flag says that the character before was "\r".
lines_from : Bool → Text → List Text
lines_from after_return [] = []
lines_from after_return (c ∷ text) =
    let rest = lines_from (c == b'\r') text in
    if after_return && c == b'\n'
    then rest
    else if is_line_end c
    then [] ∷ rest
    else cons_head c rest

-- `text.splitlines()`: an end of line at the end of the text opens no further line.
unfoldable pub splitlines : Text → List Text
unfolding lines_from is_line_end
splitlines = lines_from false

-- The next character, if any, belongs to a word.
abbrev in_word : Text → Bool
in_word [] = false
in_word (c ∷ text) = not (is_space c)

-- `text.split()`: the words between runs of white space.
unfoldable pub words : Text → List Text
unfolding is_space
words [] = []
words (c ∷ text) =
    let rest = words text in
    if is_space c then rest else if in_word text then cons_head c rest else (c ∷ []) ∷ rest

-- `text.lstrip` and `text.rstrip` of the characters that a test selects.
unfoldable pub lstrip : (ℕ → Bool) → Text → Text
lstrip drops [] = []
lstrip drops (c ∷ text) = let rest = lstrip drops text in if drops c then rest else c ∷ text

unfoldable pub rstrip : (ℕ → Bool) → Text → Text
rstrip drops [] = []
rstrip drops (c ∷ text) =
    let rest = rstrip drops text in if is_empty rest && drops c then [] else c ∷ rest

-- `text.strip()`.
unfoldable pub strip : Text → Text
unfolding lstrip rstrip is_space
strip text = rstrip is_space (lstrip is_space text)

abbrev pub is_hex_digit : ℕ → Bool
is_hex_digit c = between b'0' b'9' c || between b'a' b'f' c || between b'A' b'F' c

-- The value of a hexadecimal digit.
unfoldable pub hex_value : ℕ → ℕ
hex_value c = if leb c b'9' then c - b'0' else if leb c b'F' then c - b'A' + 10 else c - b'a' + 10

-- The lower-case hexadecimal digit of a value below 16.
unfoldable pub hex_digit : ℕ → ℕ
hex_digit n = if ltb n 10 then b'0' + n else b'a' + (n - 10)

-- `data.hex()`.
unfoldable pub to_hex : Bytes → Text
unfolding hex_digit
to_hex [] = []
to_hex (b ∷ bytes) = hex_digit (b / 16) ∷ hex_digit (b % 16) ∷ to_hex bytes

-- `bytes.fromhex(text)`: pairs of digits, with white space of ASCII between them.
unfoldable pub from_hex : Text → Result Bytes
unfolding hex_value
from_hex [] = ok []
from_hex (c ∷ []) = if is_ascii_space c then ok [] else err value_error
from_hex (c ∷ d ∷ text) =
    let pair = from_hex text in
    let skip = from_hex (d ∷ text) in
    if is_ascii_space c
    then skip
    else if is_hex_digit c && is_hex_digit d
    then (pair >>= λ bytes. ok ((hex_value c * 16 + hex_value d) ∷ bytes))
    else err value_error
