-- ===== src/Event/Names/Known.antt =====
-- Telling events of wpa_ctrl/events.py apart by their names.
use wpa_ctrl_py.Base.{
  some-injective, ℕ, zero, suc, ◌≡◌, ◌↔◌, sym, refl, ap, ◌∙◌, Bool, true, List, [], ◌∷◌, some,
  arith, any, all, ◌&&◌, not, ◌==◌, get_elem?, and_true,
}
use mathlib.Core.Path.{subst}
use wpa_ctrl_py.Text.{Text, text_eq}
use wpa_ctrl_py.Text.Constants.{Constant}
use wpa_ctrl_py.Text.Laws.{Lacks, Keeps}
use wpa_ctrl_py.Dict.Laws.{text_eq_iff}
use wpa_ctrl_py.Event.{Event, is_newline, is_event, parse_event}
use wpa_ctrl_py.Event.Message.{message, body, parse_event-message}
use wpa_ctrl_py.Event.Names.{event_names}

abbrev distinct : List Constant → Bool
distinct [] = true
distinct (c ∷ cs) = not (any (λ d. text_eq c.value d.value) cs) && distinct cs

abbrev plain : Text → Bool
plain = all (λ c. not (c == b' ') && not (is_newline c))

abbrev all_plain : List Constant → Bool
all_plain [] = true
all_plain (c ∷ cs) = plain c.value && all_plain cs

-- Checked by evaluation.
names-distinct : distinct event_names ≡ true
unfolding text_eq
names-distinct = refl

names-plain : all_plain event_names ≡ true
names-plain = refl

any-get_elem? :
    (test : Constant → Bool) (cs : List Constant) (i : ℕ) (c : Constant)
    → get_elem? cs i ≡ some c
    → test c ≡ true
    → any test cs ≡ true
any-get_elem? test [] i c h t = cc
any-get_elem? test (d ∷ cs) zero c h t = rw (ap test (some-injective h) ∙ t) refl
any-get_elem? test (d ∷ cs) (suc i) c h t = rw (any-get_elem? test cs i c h t) (ground arith)

no-later :
    (c : Constant) (cs : List Constant) (j : ℕ) (b : Constant)
    → distinct (c ∷ cs) ≡ true
    → get_elem? cs j ≡ some b
    → c.value ≡ b.value
    → ⊥
no-later c cs j b h q e =
    let found =
      any-get_elem? (λ d. text_eq c.value d.value) cs j b q ((text_eq_iff c.value b.value).1 e) in
    let (none_found, rest) =
      and_true (not (any (λ d. text_eq c.value d.value) cs)) (distinct cs) h in
    cc (found, none_found)

-- Where no value comes twice, a value says where it stands.
distinct-injective :
    (cs : List Constant) (i j : ℕ) (a b : Constant)
    → distinct cs ≡ true
    → get_elem? cs i ≡ some a
    → get_elem? cs j ≡ some b
    → a.value ≡ b.value
    → i ≡ j
distinct-injective [] i j a b h p q e = cc
distinct-injective (c ∷ cs) zero zero a b h p q e = refl
distinct-injective (c ∷ cs) zero (suc j) a b h p q e =
    absurd (no-later c cs j b h q (ap (λ (d : Constant). d.value) (some-injective p) ∙ e))
distinct-injective (c ∷ cs) (suc i) zero a b h p q e =
    absurd (no-later c cs i a h p (ap (λ (d : Constant). d.value) (some-injective q) ∙ sym e))
distinct-injective (c ∷ cs) (suc i) (suc j) a b h p q e = ap suc (
    distinct-injective cs i j a b
      (and_true (not (any (λ d. text_eq c.value d.value) cs)) (distinct cs) h).1 p q e)

plain-get_elem? :
    (cs : List Constant) (i : ℕ) (c : Constant)
    → all_plain cs ≡ true
    → get_elem? cs i ≡ some c
    → plain c.value ≡ true
plain-get_elem? [] i c h p = cc
plain-get_elem? (d ∷ cs) zero c h p =
    subst (λ (v : Constant). plain v.value ≡ true) (some-injective p)
      (and_true (plain d.value) (all_plain cs) h).0
plain-get_elem? (d ∷ cs) (suc i) c h p =
    plain-get_elem? cs i c (and_true (plain d.value) (all_plain cs) h).1 p

plain-Lacks : (text : Text) → plain text ≡ true → Lacks b' ' text × Keeps is_newline text
plain-Lacks [] h = (tt, tt)
plain-Lacks (c ∷ text) h =
    let (head, tail) = and_true (not (c == b' ') && not (is_newline c)) (plain text) h in
    let (lacks, keeps) = plain-Lacks text tail in ((ground arith, lacks), (ground arith, keeps))

-- A message whose name is one of the table's constants and whose parameters hold no newline is read
-- with these parameters, and its name equals a constant of the table exactly when that is the same
-- constant: no two constants are the name of one event.
pub parse_event-known :
    (priority i j : ℕ) (a b : Constant) (params : Text)
    → get_elem? event_names i ≡ some a
    → get_elem? event_names j ≡ some b
    → Keeps is_newline params
    → (let text = message priority (body a.value params) in
        (is_event text ≡ true)
        × ((parse_event text).params ≡ params)
        × ((text_eq (parse_event text).name b.value ≡ true) ↔ (i ≡ j)))
parse_event-known priority i j a b params p q kept =
    let text = message priority (body a.value params) in
    let (lacks, keeps) = plain-Lacks a.value (plain-get_elem? event_names i a names-plain p) in
    let (event, read) = parse_event-message priority a.value params lacks keeps kept in
    let name : (parse_event text).name ≡ a.value = ap (λ (e : Event). e.name) read in
    (
      event,
      ap (λ (e : Event). e.params) read,
      (
        λ same.
            distinct-injective event_names i j a b names-distinct p q
              (sym name ∙ (text_eq_iff (parse_event text).name b.value).0 same),
        λ same. (text_eq_iff (parse_event text).name b.value).1 (
            name
            ∙ ap (λ (c : Constant). c.value)
                (some-injective (sym p ∙ ap (get_elem? event_names) same ∙ q))),
      ),
    )
