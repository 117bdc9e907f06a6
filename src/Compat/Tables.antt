-- ===== src/Compat/Tables.antt =====
-- The table of clients of wpa_ctrl/compat.py: what is owned in it.
use wpa_ctrl_py.Base.{◌≡◌, refl, ◌⊎◌, inl, inr, [], ◌∷◌, some, All, Bool-cases, some-injective}
use wpa_ctrl_py.Text.{Text, text_eq}
use wpa_ctrl_py.Dict.Laws.{text_eq_refl}
use mathlib.Core.Path.{subst}
use wpa_ctrl_py.Transport.Socket.Tidy.{Owns, IsClean}
use wpa_ctrl_py.Client.State.{Client}
use wpa_ctrl_py.Compat.{Clients, find_client, put_client}

-- A client of the table has its socket at the path.
abbrev pub OwnedBy : Text → Clients → Type 0
OwnedBy path [] = ⊥
OwnedBy path ((name, c) ∷ clients) = Owns c.link path ⊎ OwnedBy path clients

abbrev pub AllClean : Clients → Type 0
AllClean = All (λ (item : Text × Client). IsClean item.1.link)

pub find-put :
    (ifname : Text) (c : Client) (clients : Clients)
    → find_client ifname (put_client ifname c clients) ≡ some c
unfolding find_client put_client
find-put ifname c [] = rw (text_eq_refl ifname) refl
find-put ifname c ((name, old) ∷ clients) = elim (Bool-cases (text_eq name ifname)) [
  | inl same ↦ rw (same, same) refl
  | inr other ↦ rw (other, other) (find-put ifname c clients)
]

pub find-Clean :
    (ifname : Text) (clients : Clients) (c : Client)
    → find_client ifname clients ≡ some c
    → AllClean clients
    → IsClean c.link
unfolding find_client
find-Clean ifname [] c h clean = cc
find-Clean ifname ((name, old) ∷ clients) c h clean = elim (Bool-cases (text_eq name ifname)) [
  | inl same ↦ subst (λ (d : Client). IsClean d.link) (some-injective (rw same at h)) clean.0
  | inr other ↦ find-Clean ifname clients c (rw other at h) clean.1
]

pub put-Clean :
    (ifname : Text) (c : Client) (clients : Clients)
    → IsClean c.link
    → AllClean clients
    → AllClean (put_client ifname c clients)
unfolding put_client
put-Clean ifname c [] new clean = (new, tt)
put-Clean ifname c ((name, old) ∷ clients) new clean = elim (Bool-cases (text_eq name ifname)) [
  | inl same ↦ rw same (new, clean.1)
  | inr other ↦ rw other (clean.0, put-Clean ifname c clients new clean.1)
]

-- The client put there has its file.
pub put-Owned :
    (path ifname : Text) (c : Client) (clients : Clients)
    → Owns c.link path
    → OwnedBy path (put_client ifname c clients)
unfolding put_client
put-Owned path ifname c [] own = inl own
put-Owned path ifname c ((name, old) ∷ clients) own = elim (Bool-cases (text_eq name ifname)) [
  | inl same ↦ rw same (inl own)
  | inr other ↦ rw other (inr (put-Owned path ifname c clients own))
]

-- The others keep theirs, and so does a client in whose place it is put, if it has what that had.
pub put-OwnedBy :
    (path ifname : Text) (c : Client) (clients : Clients)
    → ((old : Client)
        → find_client ifname clients ≡ some old
        → Owns old.link path
        → Owns c.link path)
    → OwnedBy path clients
    → OwnedBy path (put_client ifname c clients)
unfolding put_client find_client
put-OwnedBy path ifname c [] keeps own = absurd own
put-OwnedBy path ifname c ((name, old) ∷ clients) keeps (inl own) =
    elim (Bool-cases (text_eq name ifname)) [
      | inl same ↦ rw same (inl (keeps old (rw same refl) own))
      | inr other ↦ rw other (inl own)
    ]
put-OwnedBy path ifname c ((name, old) ∷ clients) keeps (inr own) =
    elim (Bool-cases (text_eq name ifname)) [
      | inl same ↦ rw same (inr own)
      | inr other ↦
          rw other
            (inr (put-OwnedBy path ifname c clients (λ d found. keeps d (rw other found)) own))
    ]
