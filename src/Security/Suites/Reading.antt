-- ===== src/Security/Suites/Reading.antt =====
-- `_scan_key_mgmt` (wpa_ctrl/security.py) on the bodies that an access point's flags hold: names
-- joined by plus signs, and ciphers behind a dash.
use wpa_ctrl_py.Base.{
  ℕ, zero, suc, ◌≤◌, ◌≡◌, ◌≢◌, refl, ap, ◌∙◌, inl, inr, true, false, List, [], ◌∷◌, ◌++◌,
  append_assoc, arith, ◌==◌, if◌then◌else◌, length, length-append, All, Bool-cases,
}
use wpa_ctrl_py.Text.{Text, text_eq, join}
use wpa_ctrl_py.TextSet.{member}
use wpa_ctrl_py.TextSet.Laws.{member-All}
use wpa_ctrl_py.Security.Suites.{scan_names, find_name, scan_loop, scan_key_mgmt}
use wpa_ctrl_py.Security.Suites.Names.{
  found, FindsAll, plus_names, end_names, dash_names, cipher_names,
}

abbrev pub IsSuite : Text → Type 0
IsSuite name = member name scan_names ≡ true

-- What may follow the last name: nothing, or a dash and ciphers, which begin with none of the
-- characters that go on a longer name.
pub data IsTail : Text → Type 0 where
  nothing : IsTail []
  dash : IsTail (b'-' ∷ [])
  ciphers : (c : ℕ) (rest : Text) → c ≢ b'S' → c ≢ b'E' → c ≢ b'1' → IsTail (b'-' ∷ c ∷ rest)

ne_test : (a c : ℕ) → c ≢ a → (a == c) ≡ false
ne_test a c h = ground arith

tail_names : {tail : Text} → IsTail tail → FindsAll tail
tail_names nothing = end_names
tail_names dash = dash_names
tail_names (ciphers c rest s e o) =
    cipher_names c rest (ne_test b'S' c s) (ne_test b'E' c e) (ne_test b'1' c o)

-- What the loop does behind a name.
after_name : ℕ → Text → List Text
after_name fuel [] = []
after_name fuel (d ∷ rest) = if d == b'+' then scan_loop fuel rest else []

scan_loop-found :
    (fuel : ℕ) (body name rest : Text)
    → body ≢ []
    → find_name scan_names body ≡ found name rest
    → scan_loop (suc fuel) body ≡ name ∷ after_name fuel rest
unfolding scan_loop after_name
scan_loop-found fuel [] name rest n e = absurd (n refl)
scan_loop-found fuel (c ∷ body) name [] n e = rw (e, scan_loop)
scan_loop-found fuel (c ∷ body) name (d ∷ rest) n e = elim (Bool-cases (d == b'+')) [
  | inl p ↦ rw (e, scan_loop, p)
  | inr p ↦ rw (e, scan_loop, p)
]

after_tail : (fuel : ℕ) {tail : Text} → IsTail tail → after_name fuel tail ≡ []
unfolding after_name
after_tail fuel nothing = refl
after_tail fuel dash = refl
after_tail fuel (ciphers c rest s e o) = refl

IsSuite-nonempty : (name rest : Text) → IsSuite name → name ++ rest ≢ []
unfolding member text_eq
IsSuite-nonempty [] rest h = cc
IsSuite-nonempty (c ∷ name) rest h = cc

finds :
    (name : Text) {rest : Text}
    → IsSuite name
    → FindsAll rest
    → find_name scan_names (name ++ rest) ≡ found name rest
finds name {rest} h all =
    member-All (λ n. find_name scan_names (n ++ rest) ≡ found n rest) name scan_names h all

length_pos : (text : Text) → text ≢ [] → 1 ≤ length text
length_pos [] n = absurd (n refl)
length_pos (c ∷ text) n = omega arith

after_plus : (fuel : ℕ) (rest : Text) → after_name fuel (b'+' ∷ rest) ≡ scan_loop fuel rest
unfolding after_name
after_plus fuel rest = refl

join_plus :
    (name m : Text) (names : List Text) (tail : Text)
    → join (b'+' ∷ []) (name ∷ m ∷ names) ++ tail
      ≡ name ++ b'+' ∷ (join (b'+' ∷ []) (m ∷ names) ++ tail)
unfolding join
join_plus name m names tail = append_assoc name _ tail

scan_loop-join :
    (names : List Text) (fuel : ℕ) (name : Text) {tail : Text}
    → length (join (b'+' ∷ []) (name ∷ names) ++ tail) ≤ fuel
    → All IsSuite (name ∷ names)
    → IsTail tail
    → scan_loop fuel (join (b'+' ∷ []) (name ∷ names) ++ tail) ≡ name ∷ names
unfolding join
scan_loop-join [] zero name le h t =
    absurd (omega (arith, length_pos _ (IsSuite-nonempty name _ h.0)))
scan_loop-join [] (suc fuel) name {tail} le h t =
    scan_loop-found fuel (name ++ tail) name tail (IsSuite-nonempty name tail h.0)
      (finds name h.0 (tail_names t))
    ∙ ap (◌∷◌ name) (after_tail fuel t)
scan_loop-join (m ∷ names) zero name {tail} le h t =
    let le' = rw (join_plus name m names tail) at le in
    absurd (omega (arith, length_pos _ (IsSuite-nonempty name _ h.0)))
scan_loop-join (m ∷ names) (suc fuel) name {tail} le h t =
    let rest = join (b'+' ∷ []) (m ∷ names) ++ tail in
    let le' = rw (join_plus name m names tail) at le in
    rw (join_plus name m names tail) (
      scan_loop-found fuel (name ++ b'+' ∷ rest) name (b'+' ∷ rest) (IsSuite-nonempty name _ h.0)
        (finds name h.0 (plus_names rest))
      ∙ ap (◌∷◌ name) (
          after_plus fuel rest
          ∙ scan_loop-join names fuel m (omega (arith, length-append name (b'+' ∷ rest))) h.1 t))

-- Known names joined by plus signs are read as just these names, if nothing stands behind them, or
-- a dash and ciphers that begin with none of S, E and 1: no name is cut short, and none is read on
-- into the ciphers.
pub scan_key_mgmt-join :
    (name : Text) (names : List Text) (tail : Text)
    → All IsSuite (name ∷ names)
    → IsTail tail
    → scan_key_mgmt (join (b'+' ∷ []) (name ∷ names) ++ tail) ≡ name ∷ names
unfolding scan_key_mgmt
scan_key_mgmt-join name names tail h t =
    scan_loop-join names (length (join (b'+' ∷ []) (name ∷ names) ++ tail)) name (omega arith) h t
