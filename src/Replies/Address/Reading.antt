-- ===== src/Replies/Address/Reading.antt =====
-- Which texts `_is_address` of wpa_ctrl/replies.py accepts.
use wpa_ctrl_py.Base.{
  ◌≡◌, ◌↔◌, refl, sym, true, ◌&&◌, List, [], ◌∷◌, arith, All, all, length, ◌==◌, and_true, ==_iff,
}
use wpa_ctrl_py.Text.{Text, split, join}
use wpa_ctrl_py.Text.Joining.{join-split, split-join}
use wpa_ctrl_py.Text.Laws.{Lacks}
use wpa_ctrl_py.Replies.Address.{is_octet, is_address}

-- Six pairs of hexadecimal digits.
abbrev pub IsAddress : List Text → Type 0
IsAddress parts = (length parts ≡ 6) × All (λ p. is_octet p ≡ true) parts

octet-Lacks : (part : Text) → is_octet part ≡ true → Lacks b':' part
octet-Lacks [] h = cc
octet-Lacks (a ∷ []) h = cc
octet-Lacks (a ∷ b ∷ []) h = (ground arith, (ground arith, tt))
octet-Lacks (a ∷ b ∷ c ∷ part) h = cc

octets-Lacks : (parts : List Text) → All (λ p. is_octet p ≡ true) parts → All (Lacks b':') parts
octets-Lacks [] h = tt
octets-Lacks (p ∷ parts) h = (octet-Lacks p h.0, octets-Lacks parts h.1)

all-All : (parts : List Text) → (all is_octet parts ≡ true) ↔ All (λ p. is_octet p ≡ true) parts
all-All [] = (λ h. tt, λ h. refl)
all-All (p ∷ parts) = (
  λ h. let (a, b) = and_true (is_octet p) (all is_octet parts) h in (a, (all-All parts).0 b),
  λ h. rw (h.0, (all-All parts).1 h.1) refl,
)

-- `_is_address` accepts exactly the texts that are six pairs of hexadecimal digits, in either case,
-- with a colon between each and the next.
pub is_address_iff :
    (text : Text)
    → (is_address text ≡ true)
      ↔ ((parts : List Text) × IsAddress parts × (text ≡ join (b':' ∷ []) parts))
unfolding is_address
is_address_iff text = (
  λ h.
      let parts = split b':' text in
      let (six, octets) = and_true (length parts == 6) (all is_octet parts) h in
      (
        parts,
        ((==_iff (length parts) 6).0 six, (all-All parts).0 octets),
        sym (join-split b':' text),
      ),
  λ (parts, (six, octets), e). rw e (back parts six octets),
)
  where
    back :
        (parts : List Text)
        → length parts ≡ 6
        → All (λ p. is_octet p ≡ true) parts
        → (let found = split b':' (join (b':' ∷ []) parts) in
            (length found == 6 && all is_octet found) ≡ true)
    back [] six octets = absurd (omega arith)
    back (p ∷ parts) six octets =
        rw (split-join b':' p parts (octets-Lacks (p ∷ parts) octets))
          (rw ((==_iff (length (p ∷ parts)) 6).1 six, (all-All (p ∷ parts)).1 octets) refl)
