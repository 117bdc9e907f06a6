-- ===== src/Transport/Socket/Tidy.antt =====
-- Which files the methods of wpa_ctrl/transport.py leave: none but their own.
pub mod Opening
use wpa_ctrl_py.Base.{
  ◌≡◌, ◌≢◌, refl, sym, ap, ◌∙◌, ◌⊎◌, inl, inr, Bool, true, false, not, ◌&&◌, List, [], ◌∷◌, Option,
  none, some, is_empty, if◌then◌else◌, Bool-cases, arith, some-injective,
}
use mathlib.Core.Path.{subst}
use wpa_ctrl_py.Result.{Error, Result, ok, err, connection_error}
use wpa_ctrl_py.Text.{Text, text_eq}
use wpa_ctrl_py.Dict.Laws.{text_eq_iff}
use wpa_ctrl_py.TextSet.{member}
use wpa_ctrl_py.Transport.World.{World, without, bind_file, unlink_file}
use wpa_ctrl_py.Transport.Exec.{after}
use wpa_ctrl_py.Transport.Socket.{
  Transport, Link, connected, own_path, open_link, open_socket, connect, unlink, address_of,
}
use wpa_ctrl_py.Transport.Socket.{is_encodable, path_error, opening, bind_on_disk}
use wpa_ctrl_py.Transport.Socket.Lifecycle.{open_socket-opening, without-bound}

-- A closed connection has no file, and a file has a name; the path of the daemon's socket can be
-- encoded, and files can be unlinked.
pub record IsClean (l : Link) : Type 0 where
  pub closed : connected l.transport ≡ false → l.transport.client_path ≡ none
  pub named : is_empty (own_path l.transport) ≡ false
  pub real : l.transport.client_path ≢ some []
  pub spelled : is_encodable (address_of l.transport.path) ≡ true
  pub unlinks : l.world.can_unlink ≡ true

-- The files, and whether they can be unlinked.
abbrev pub disk : World → List Text × Bool
disk w = (w.files, w.can_unlink)

-- Two connections that differ in neither the transport nor the disk.
pub IsClean-same :
    {l l' : Link}
    → l'.transport ≡ l.transport
    → disk l'.world ≡ disk l.world
    → IsClean l
    → IsClean l'
IsClean-same same same' clean = record {
  closed = λ off.
      ap (λ (t : Transport). t.client_path) same ∙ clean.closed (ap connected (sym same) ∙ off);
  named = ap (λ (t : Transport). is_empty (own_path t)) same ∙ clean.named;
  real = λ h. clean.real (ap (λ (t : Transport). t.client_path) (sym same) ∙ h);
  spelled = ap (λ (t : Transport). is_encodable (address_of t.path)) same ∙ clean.spelled;
  unlinks = ap (λ (d : List Text × Bool). d.1) same' ∙ clean.unlinks;
}

abbrev pub HasFile : Link → Text → Type 0
HasFile l path = member path l.world.files ≡ true

abbrev pub Owns : Link → Text → Type 0
Owns l path = l.transport.client_path ≡ some path

-- Every file afterwards was there before or is the connection's own, which stays its own.
abbrev pub Tidy : Link → Link → Type 0
Tidy l l' =
    IsClean l
    → IsClean l'
      × ((path : Text) → HasFile l' path → HasFile l path ⊎ Owns l' path)
      × ((path : Text) → Owns l path → Owns l' path)

pub Tidy-refl : (l : Link) → Tidy l l
Tidy-refl l clean = (clean, λ path h. inl h, λ path h. h)

pub Tidy-trans : (l l' l'' : Link) → Tidy l l' → Tidy l' l'' → Tidy l l''
Tidy-trans l l' l'' first second clean =
    let (clean', files, kept) = first clean in
    let (clean'', files', kept') = second clean' in
    (
      clean'',
      λ path h. elim (files' path h) [
        | inl before ↦ elim (files path before) [
          | inl old ↦ inl old
          | inr own ↦ inr (kept' path own)
        ]
        | inr own ↦ inr own
      ],
      λ path h. kept' path (kept path h),
    )

-- A step that changes neither the transport nor the files.
pub Tidy-same :
    (l l' : Link) → l'.transport ≡ l.transport → disk l'.world ≡ disk l.world → Tidy l l'
Tidy-same l l' same files clean = (
  IsClean-same same files clean,
  λ path h. inl (ap (λ (d : List Text × Bool). member path d.0) (sym files) ∙ h),
  λ path h. ap (λ (t : Transport). t.client_path) same ∙ h,
)

pub member-without :
    (q path : Text) (files : List Text)
    → member q (without path files) ≡ true
    → member q files ≡ true
unfolding member without
member-without q path [] h = cc
member-without q path (f ∷ files) h = ground (arith, member-without q path files)

-- What an unlink leaves was there, whether it succeeds or not.
pub member-unlink_file :
    (q path : Text) (w : World)
    → member q (unlink_file path w).files ≡ true
    → member q w.files ≡ true
member-unlink_file q path w h = go w.can_unlink h
  where
    go :
        (can : Bool)
        → member q (if can then without path w.files else w.files) ≡ true
        → member q w.files ≡ true
    go true e = member-without q path w.files e
    go false e = e
