-- ===== src/Event/Split/Laws.antt =====
-- How `_split_params` (wpa_ctrl/events.py) goes through a payload, piece by piece.
use wpa_ctrl_py.Base.{
  ℕ, ◌≡◌, ◌≢◌, refl, sym, ◌∙◌, Bool, true, false, not, List, [], ◌∷◌, ◌++◌, append_assoc,
  append-nil, arith, is_empty, All,
}
use wpa_ctrl_py.Text.{Text, join}
use wpa_ctrl_py.Event.Split.{Scan, flush, scan_char, scan_text, split_params}

abbrev pub scan_state : List Text → Text → Bool → Scan
scan_state tokens current quoted = record {
  tokens = tokens;
  current = current;
  quoted = quoted;
  escaped = false;
}

-- No space and no quote.
abbrev pub IsBare : Text → Type 0
IsBare = All (λ c. (c ≢ b' ') × (c ≢ b'"'))

-- What may stand between quotes: a backslash takes the next character with it, and no quote stands
-- alone.
pub data IsEscaped : Text → Type 0 where
  none_left : IsEscaped []
  char : {c : ℕ} {text : Text} → c ≢ b'\\' → c ≢ b'"' → IsEscaped text → IsEscaped (c ∷ text)
  pair : {c : ℕ} {text : Text} → IsEscaped text → IsEscaped (b'\\' ∷ c ∷ text)

module _ (tokens : List Text) where
  bare_char :
      (current : Text) (c : ℕ)
      → c ≢ b' '
      → c ≢ b'"'
      → scan_char (scan_state tokens current false) c ≡ scan_state tokens (current ++ c ∷ []) false
  unfolding scan_char
  bare_char current c n m = ground arith

  escaped_char :
      (current : Text) (c : ℕ)
      → c ≢ b'\\'
      → c ≢ b'"'
      → scan_char (scan_state tokens current true) c ≡ scan_state tokens (current ++ c ∷ []) true
  unfolding scan_char
  escaped_char current c n m = ground arith

  escaped_pair :
      (current : Text) (c : ℕ)
      → scan_char (scan_char (scan_state tokens current true) b'\\') c
        ≡ scan_state tokens (current ++ b'\\' ∷ c ∷ []) true
  unfolding scan_char
  escaped_pair current c = rw append_assoc

  pub scan_bare :
      (current text rest : Text)
      → IsBare text
      → scan_text (scan_state tokens current false) (text ++ rest)
        ≡ scan_text (scan_state tokens (current ++ text) false) rest
  unfolding scan_text
  scan_bare current [] rest h = rw append-nil
  scan_bare current (c ∷ text) rest h =
      rw (bare_char current c h.0.0 h.0.1, scan_text)
        (scan_bare (current ++ c ∷ []) text rest h.1 ∙ rw append_assoc)

  pub scan_escaped :
      (current : Text) {text : Text} (rest : Text)
      → IsEscaped text
      → scan_text (scan_state tokens current true) (text ++ rest)
        ≡ scan_text (scan_state tokens (current ++ text) true) rest
  unfolding scan_text
  scan_escaped current rest none_left = rw append-nil
  scan_escaped current rest (char {c} {text} n m h) =
      rw (escaped_char current c n m, scan_text)
        (scan_escaped (current ++ c ∷ []) rest h ∙ rw append_assoc)
  scan_escaped current rest (pair {c} {text} h) =
      rw (escaped_pair current c, scan_text)
        (scan_escaped (current ++ b'\\' ∷ c ∷ []) rest h ∙ rw append_assoc)

  pub scan_quote :
      (current rest : Text) (quoted : Bool)
      → scan_text (scan_state tokens current quoted) (b'"' ∷ rest)
        ≡ scan_text (scan_state tokens (current ++ b'"' ∷ []) (not quoted)) rest
  unfolding scan_text scan_char
  scan_quote current rest true = refl
  scan_quote current rest false = refl

-- A piece that is read whole, from outside quotes and back to there.
pub record IsToken (token : Text) : Type 0 where
  pub nonempty : is_empty token ≡ false
  pub reads :
      (tokens : List Text) (current rest : Text)
      → scan_text (scan_state tokens current false) (token ++ rest)
        ≡ scan_text (scan_state tokens (current ++ token) false) rest

scan_end :
    (tokens : List Text) (token : Text)
    → IsToken token
    → (flush (scan_text (scan_state tokens [] false) token)).tokens ≡ tokens ++ token ∷ []
unfolding scan_text
scan_end tokens token h =
    rw (← append-nil token) (rw (h.reads tokens [] []) (rw (append-nil, h.nonempty)))

scan_space :
    (tokens : List Text) (token rest : Text)
    → IsToken token
    → scan_text (scan_state tokens [] false) (token ++ b' ' ∷ rest)
      ≡ scan_text (scan_state (tokens ++ token ∷ []) [] false) rest
unfolding scan_text scan_char
scan_space tokens token rest h = h.reads tokens [] (b' ' ∷ rest) ∙ (let e = h.nonempty in rw e)

scan_join :
    (done tokens : List Text)
    → All IsToken tokens
    → (flush (scan_text (scan_state done [] false) (join (b' ' ∷ []) tokens))).tokens
      ≡ done ++ tokens
unfolding join
scan_join done [] h = unfold scan_text in sym (append-nil done)
scan_join done (t ∷ []) h = scan_end done t h.0
scan_join done (t ∷ u ∷ tokens) h =
    rw (scan_space done t (join (b' ' ∷ []) (u ∷ tokens)) h.0)
      (scan_join (done ++ t ∷ []) (u ∷ tokens) h.1 ∙ append_assoc done (t ∷ []) (u ∷ tokens))

-- Tokens joined by spaces are split into the same tokens.
pub split_params-join :
    (tokens : List Text) → All IsToken tokens → split_params (join (b' ' ∷ []) tokens) ≡ tokens
unfolding split_params
split_params-join tokens h = scan_join [] tokens h
