-- ===== src/Event/Params/Fields.antt =====
-- `parse_params` (wpa_ctrl/events.py) on payloads of key=value fields, bare and quoted.
use wpa_ctrl_py.Base.{
  ℕ, ◌≡◌, refl, ap, ◌∙◌, true, false, List, [], ◌∷◌, ◌++◌, append_assoc, map, arith, is_empty, All,
  All-append,
}
use wpa_ctrl_py.Text.{Text, join, partition}
use wpa_ctrl_py.Text.Laws.{Lacks, partition-append}
use wpa_ctrl_py.Dict
use wpa_ctrl_py.Dict.{Dict}
use wpa_ctrl_py.Event.Split.Laws.{
  IsBare, IsEscaped, scan_state, scan_bare, scan_escaped, scan_quote, IsToken, split_params-join,
}
use wpa_ctrl_py.Event.Split.{scan_text}
use wpa_ctrl_py.Event.Params.{ends_quoted, but_last, unquote, add_token, add_tokens, parse_params}

-- A field of a payload: `key=value`, or `key="value"`.
pub data Field : Type 0 where
  bare : Text → Text → Field
  quoted : Text → Text → Field

-- The text behind the equals sign, and what a reader is to have of it.
abbrev pub written : Field → Text
written (bare key value) = value
written (quoted key value) = b'"' ∷ (value ++ b'"' ∷ [])

abbrev pub key_of : Field → Text
key_of (bare key value) = key
key_of (quoted key value) = key

abbrev pub value_of : Field → Text
value_of (bare key value) = value
value_of (quoted key value) = value

abbrev pub token : Field → Text
token f = key_of f ++ b'=' ∷ written f

-- The fields, separated by spaces.
abbrev pub payload : List Field → Text
payload fields = join (b' ' ∷ []) (map token fields)

abbrev pub IsKey : Text → Type 0
IsKey key = (is_empty key ≡ false) × IsBare key × Lacks b'=' key

-- A bare value holds no space and no quote; a quoted one is escaped.
abbrev pub IsField : Field → Type 0
IsField (bare key value) = IsKey key × IsBare value
IsField (quoted key value) = IsKey key × IsEscaped value

-- The dict that the fields are assigned to in order.
abbrev pub assign : Dict → List Field → Dict
assign variables [] = variables
assign variables (f ∷ fields) = assign (Dict.set (key_of f) (value_of f) variables) fields

is_empty-append : (a b : Text) → is_empty a ≡ false → is_empty (a ++ b) ≡ false
is_empty-append [] b h = cc
is_empty-append (c ∷ a) b h = refl

bare-IsToken : (text : Text) → is_empty text ≡ false → IsBare text → IsToken text
bare-IsToken text n h = record {
  nonempty = n;
  reads = λ tokens current rest. scan_bare tokens current text rest h;
}

quoted_then :
    (key value rest : Text)
    → (key ++ (b'=' ∷ b'"' ∷ (value ++ b'"' ∷ []))) ++ rest
      ≡ key ++ (b'=' ∷ b'"' ∷ (value ++ b'"' ∷ rest))
quoted_then key value rest = simp append_assoc

quoted_behind :
    (current key value : Text)
    → ((((current ++ key) ++ b'=' ∷ []) ++ b'"' ∷ []) ++ value) ++ b'"' ∷ []
      ≡ current ++ (key ++ (b'=' ∷ b'"' ∷ (value ++ b'"' ∷ [])))
quoted_behind current key value = simp append_assoc

equals-IsBare : IsBare (b'=' ∷ [])
equals-IsBare = ((omega arith, omega arith), tt)

bare_field-IsToken : (key value : Text) → IsKey key → IsBare value → IsToken (key ++ b'=' ∷ value)
bare_field-IsToken key value k h =
    bare-IsToken _ (is_empty-append key _ k.0)
      (All-append _ key (b'=' ∷ value) k.1 (equals-IsBare.0, h))

quoted_field-IsToken :
    (key value : Text)
    → IsKey key
    → IsEscaped value
    → IsToken (key ++ b'=' ∷ b'"' ∷ (value ++ b'"' ∷ []))
quoted_field-IsToken key value k h = record {
  nonempty = is_empty-append key _ k.0;
  reads = λ tokens current rest.
      ap (λ t. scan_text (scan_state tokens current false) t) (quoted_then key value rest)
      ∙ scan_bare tokens current key _ k.1
      ∙ scan_bare tokens (current ++ key) (b'=' ∷ []) _ equals-IsBare
      ∙ scan_quote tokens _ _ false
      ∙ scan_escaped tokens _ _ h
      ∙ scan_quote tokens _ rest true
      ∙ ap (λ t. scan_text (scan_state tokens t false) rest) (quoted_behind current key value);
}

token-IsToken : (f : Field) → IsField f → IsToken (token f)
token-IsToken (bare key value) h = bare_field-IsToken key value h.0 h.1
token-IsToken (quoted key value) h = quoted_field-IsToken key value h.0 h.1

unquote-bare : (value : Text) → IsBare value → unquote value ≡ value
unfolding unquote
unquote-bare [] h = refl
unquote-bare (c ∷ []) h = refl
unquote-bare (c ∷ d ∷ text) h = ground arith

ends_quoted-concat : (text : Text) → ends_quoted (text ++ b'"' ∷ []) ≡ true
ends_quoted-concat [] = refl
ends_quoted-concat (c ∷ []) = refl
ends_quoted-concat (c ∷ d ∷ text) = ends_quoted-concat (d ∷ text)

but_last-concat : (text : Text) (c : ℕ) → but_last (text ++ c ∷ []) ≡ text
but_last-concat [] c = refl
but_last-concat (d ∷ []) c = refl
but_last-concat (d ∷ e ∷ text) c = ap (◌∷◌ d) (but_last-concat (e ∷ text) c)

unquote-quoted : (value : Text) → unquote (b'"' ∷ (value ++ b'"' ∷ [])) ≡ value
unfolding unquote
unquote-quoted [] = refl
unquote-quoted (c ∷ value) = rw (ends_quoted-concat (c ∷ value)) (but_last-concat (c ∷ value) b'"')

unquote-written : (f : Field) → IsField f → unquote (written f) ≡ value_of f
unquote-written (bare key value) h = unquote-bare value h.1
unquote-written (quoted key value) h = unquote-quoted value

IsField-IsKey : (f : Field) → IsField f → IsKey (key_of f)
IsField-IsKey (bare key value) h = h.0
IsField-IsKey (quoted key value) h = h.0

add_token-token :
    (variables : Dict) (f : Field)
    → IsField f
    → add_token variables (partition b'=' (token f)) ≡ Dict.set (key_of f) (value_of f) variables
unfolding add_token
add_token-token variables f h =
    let key = IsField-IsKey f h in
    rw (partition-append b'=' (key_of f) (written f) key.2, key.0, unquote-written f h)

add_tokens-assign :
    (fields : List Field) (variables : Dict)
    → All IsField fields
    → add_tokens variables (map token fields) ≡ assign variables fields
unfolding add_tokens
add_tokens-assign [] variables h = refl
add_tokens-assign (f ∷ fields) variables h =
    rw (add_token-token variables f h.0, add_tokens) (add_tokens-assign fields _ h.1)

map-IsToken : (fields : List Field) → All IsField fields → All IsToken (map token fields)
map-IsToken [] h = tt
map-IsToken (f ∷ fields) h = (token-IsToken f h.0, map-IsToken fields h.1)

-- A payload of fields, with keys and bare values that hold neither spaces nor quotes and quoted
-- values that are escaped, is read as the dict of their values, the last occurrence of a key
-- winning: a quoted value keeps its spaces and its escapes, and loses only the quotes.
pub parse_params-payload :
    (fields : List Field) → All IsField fields → parse_params (payload fields) ≡ assign [] fields
unfolding parse_params
parse_params-payload fields h =
    rw (split_params-join (map token fields) (map-IsToken fields h)) (add_tokens-assign fields [] h)
