-- ===== src/Security/Order.antt =====
-- The order of the groups in a flags column does not matter to `parse_security` of
-- wpa_ctrl/security.py.
use wpa_ctrl_py.Base.{◌≡◌, refl, sym, ap, ◌∙◌, Bool, true, false, ◌||◌, List, any, All, arith}
use mathlib.Core.Logic.{∥∥₁_elim}
use mathlib.Core.List.{Perm, Permᴰ}
use mathlib.Core.Quot
use mathlib.Core.Quot.{Quot-set}
use wpa_ctrl_py.Text.{Text}
use wpa_ctrl_py.Text.Laws.{Lacks}
use wpa_ctrl_py.TextSet
use wpa_ctrl_py.TextSet.{TextSet, member}
use wpa_ctrl_py.TextSet.Frozen.{SameMembers, FrozenSet}
use wpa_ctrl_py.Security.{Security, no_security, parse_security}
use wpa_ctrl_py.Security.Views.{Offered, offered, answers, answers-same}
use wpa_ctrl_py.Security.Adding.{
  column, add_all, Part, add_part, gives, member-add_all, parse_security-column,
}

swap_or : (a b c : Bool) → a || (b || c) ≡ b || (a || c)
swap_or true b c = ground arith
swap_or false b c = refl

any-Permᴰ : (test : Text → Bool) {xs ys : List Text} → Permᴰ xs ys → any test xs ≡ any test ys
any-Permᴰ test Permᴰ.nil = refl
any-Permᴰ test (Permᴰ.cons {a} {b} {l₁} e d) =
    ap (λ (c : Text). test c || any test l₁) e
    ∙ ap (λ (rest : Bool). test b || rest) (any-Permᴰ test d)
any-Permᴰ test (Permᴰ.swap {a} {b} {a'} {b'} {l} e e') =
    ap (λ (c : Text). test c || (test b || any test l)) e
    ∙ ap (λ (c : Text). test b' || (test c || any test l)) e'
    ∙ swap_or (test b') (test a') (any test l)
any-Permᴰ test (Permᴰ.trans d d') = any-Permᴰ test d ∙ any-Permᴰ test d'

module _ (set_of : Security → TextSet) (texts_of : Part → List Text)
    (adds : (part : Part) (s : Security)
      → set_of (add_part part s) ≡ TextSet.update (texts_of part) (set_of s)) where
  -- In any order the groups give the set the same members.
  SameMembers-Perm :
      {groups groups' : List Text}
      → Permᴰ groups groups'
      → SameMembers (set_of (add_all groups no_security)) (set_of (add_all groups' no_security))
  SameMembers-Perm {groups} {groups'} d x =
      member-add_all set_of texts_of adds x groups no_security
      ∙ ap (λ (b : Bool). b || member x (set_of no_security))
          (any-Permᴰ (gives set_of texts_of adds x) d)
      ∙ sym (member-add_all set_of texts_of adds x groups' no_security)

names-SameMembers :
    {groups groups' : List Text}
    → Permᴰ groups groups'
    → SameMembers (add_all groups no_security).key_mgmt (add_all groups' no_security).key_mgmt
names-SameMembers d = SameMembers-Perm (λ s. s.key_mgmt) (λ part. part.names) (λ part s. refl) d

protocols-SameMembers :
    {groups groups' : List Text}
    → Permᴰ groups groups'
    → SameMembers (add_all groups no_security).protocols (add_all groups' no_security).protocols
protocols-SameMembers d =
    SameMembers-Perm (λ s. s.protocols) (λ part. part.protocols) (λ part s. refl) d

flags-SameMembers :
    {groups groups' : List Text}
    → Permᴰ groups groups'
    → SameMembers (add_all groups no_security).flags (add_all groups' no_security).flags
flags-SameMembers d = SameMembers-Perm (λ s. s.flags) (λ part. part.others) (λ part s. refl) d

offered-same :
    (s t : Security)
    → ◌≡◌ {A = FrozenSet} (Quot.mk s.key_mgmt) (Quot.mk t.key_mgmt)
    → ◌≡◌ {A = FrozenSet} (Quot.mk s.protocols) (Quot.mk t.protocols)
    → ◌≡◌ {A = FrozenSet} (Quot.mk s.flags) (Quot.mk t.flags)
    → offered s ≡ offered t
offered-same s t names protocols flags =
    ap
      (λ (q : FrozenSet).
        let o : Offered = record {
          key_mgmt = q;
          protocols = Quot.mk s.protocols;
          flags = Quot.mk s.flags;
        } in
        o)
      names
    ∙ ap
        (λ (q : FrozenSet).
          let o : Offered = record {
            key_mgmt = Quot.mk t.key_mgmt;
            protocols = q;
            flags = Quot.mk s.flags;
          } in
          o)
        protocols
    ∙ ap
        (λ (q : FrozenSet).
          let o : Offered = record {
            key_mgmt = Quot.mk t.key_mgmt;
            protocols = Quot.mk t.protocols;
            flags = q;
          } in
          o)
        flags

-- Whatever stands in the brackets, known or not: in another order the same groups give the same
-- three sets, and so the same answer to every question about the access point.
pub parse_security-Perm :
    (groups groups' : List Text)
    → Perm groups groups'
    → All (Lacks b']') groups
    → All (Lacks b']') groups'
    → (offered (parse_security (column groups)) ≡ offered (parse_security (column groups')))
      × (answers (parse_security (column groups)) ≡ answers (parse_security (column groups')))
parse_security-Perm groups groups' order h h' =
    let s = add_all groups no_security in
    let t = add_all groups' no_security in
    let same =
      offered-same s t (∥∥₁_elim order (Quot-set _ _) (λ d. Quot.sound (names-SameMembers d)))
        (∥∥₁_elim order (Quot-set _ _) (λ d. Quot.sound (protocols-SameMembers d)))
        (∥∥₁_elim order (Quot-set _ _) (λ d. Quot.sound (flags-SameMembers d))) in
    let same' =
      ap offered (parse_security-column groups h)
      ∙ same
      ∙ ap offered (sym (parse_security-column groups' h')) in
    (same', answers-same (parse_security (column groups)) (parse_security (column groups')) same')
