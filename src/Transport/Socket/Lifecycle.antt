-- ===== src/Transport/Socket/Lifecycle.antt =====
-- Opening and closing the connection of wpa_ctrl/transport.py: what is left behind.
use wpa_ctrl_py.Base.{
  ◌≡◌, refl, sym, ap, ◌∙◌, inl, inr, Bool, true, false, not, ◌&&◌, List, [], ◌∷◌, Option, none,
  some, is_empty, if◌then◌else◌, Bool-cases,
}
use wpa_ctrl_py.Result.{Error, Result, ok}
use wpa_ctrl_py.Text.{Text, text_eq}
use wpa_ctrl_py.Dict.Laws.{text_eq_refl}
use wpa_ctrl_py.TextSet.{member}
use wpa_ctrl_py.Transport.World.{without, bind_file}
use wpa_ctrl_py.Transport.Exec.{after}
use wpa_ctrl_py.Transport.Socket.{
  Transport, Link, connected, own_path, open_link, open_socket, close_link, connect, unlink,
  address_of, is_encodable, path_error, opening, bind_on_disk,
}

-- A transport as `__init__` makes it and as `close` leaves it.
abbrev pub IsClosed : Transport → Type 0
IsClosed t = (t.socket ≡ none) × (t.client_path ≡ none)

abbrev pub is_none : Option Error → Bool
is_none none = true
is_none (some e) = false

-- `os` takes the path.
abbrev pub is_path : Text → Bool
is_path path = is_none (path_error path)

-- The files that a session leaves: those before it, less what stood at the client's own path where
-- it comes to use one.
abbrev pub files_left : Link → List Text
files_left l =
    if l.world.can_create && not l.world.has_abstract && is_path (own_path l.transport)
    then without (own_path l.transport) l.world.files
    else l.world.files

without-again :
    (path : Text) (files : List Text) → without path (without path files) ≡ without path files
unfolding without
without-again path [] = refl
without-again path (f ∷ files) = elim (Bool-cases (text_eq f path)) [
  | inl same ↦ rw same (without-again path files)
  | inr other ↦ rw (other, other) (ap (◌∷◌ f) (without-again path files))
]

pub without-member : (path : Text) (files : List Text) → member path (without path files) ≡ false
unfolding without member
without-member path [] = refl
without-member path (f ∷ files) = elim (Bool-cases (text_eq f path)) [
  | inl same ↦ rw same (without-member path files)
  | inr other ↦ rw (other, other) (without-member path files)
]

pub without-bound :
    (path : Text) (files : List Text)
    → without path (path ∷ without path files) ≡ without path files
unfolding without
without-bound path files = rw (text_eq_refl path) (without-again path files)

abbrev pub closed : Transport → Transport
closed t = record t { socket = none; client_path = none }

closed-IsClosed : (t : Transport) → IsClosed t → closed t ≡ t
closed-IsClosed t (off, pathless) = sym (
    ap (λ (s : Option Text). record t { socket = s }) off
    ∙ ap (λ (p : Option Text). record t { socket = none; client_path = p }) pathless)

-- What `close` makes of it.
abbrev pub Leaves : Link → List Text → Link → Type 0
Leaves l files l' =
    (closed l'.transport ≡ closed l.transport)
    × (unlink l'.transport.client_path l'.world).files ≡ files

Leaves-abstract :
    (l : Link)
    → l.transport.client_path ≡ none
    → is_encodable (address_of l.transport.path) ≡ true
    → Leaves l l.world.files (connect l.transport none (some l.world) l.world).1
Leaves-abstract l pathless spelled = elim (Bool-cases l.world.can_connect) [
  | inl went ↦ rw (spelled, went) (refl, refl)
  | inr refused ↦ rw (spelled, refused) (refl, rw pathless refl)
]

Leaves-file :
    (l : Link) (path : Text)
    → l.transport.client_path ≡ none
    → is_empty path ≡ false
    → l.world.can_unlink ≡ true
    → is_encodable (address_of l.transport.path) ≡ true
    → (let cleared = unlink (some path) l.world in
        Leaves l
          (without path l.world.files)
          (connect l.transport (some path) (bind_file path cleared) cleared).1)
unfolding bind_file
Leaves-file l [] pathless h unlinks spelled = cc
Leaves-file l (c ∷ path) pathless h unlinks spelled = elim (Bool-cases l.world.can_bind) [
  | inl bound ↦
      rw (bound, unlinks, without-member (c ∷ path) l.world.files, spelled)
        (elim (Bool-cases l.world.can_connect) [
          | inl went ↦ rw went (refl, without-bound (c ∷ path) l.world.files)
          | inr refused ↦ rw refused (refl, rw pathless (without-bound (c ∷ path) l.world.files))
        ])
  | inr unbound ↦ rw (unbound, unlinks) (refl, rw pathless (without-again (c ∷ path) l.world.files))
]

pub open_link-closed : (l : Link) → l.transport.socket ≡ none → open_link l ≡ open_socket l
unfolding open_link
open_link-closed l off =
    let off' : connected l.transport ≡ false =
      ap (λ (s : Option Text). elim s [ none ↦ false | some address ↦ true ]) off in
    ap (λ (on : Bool). if on then (ok tt, l) else open_socket l) off'

pub open_socket-opening :
    (l : Link) → open_socket l ≡ opening l.world.can_create l.world.has_abstract l
unfolding open_socket
open_socket-opening l = refl

Leaves-opening :
    (l : Link) (created abstract : Bool)
    → l.transport.client_path ≡ none
    → is_empty (own_path l.transport) ≡ false
    → l.world.can_unlink ≡ true
    → is_encodable (address_of l.transport.path) ≡ true
    → (let left = without (own_path l.transport) l.world.files in
        Leaves l
          (if created && not abstract && is_path (own_path l.transport)
            then left
            else l.world.files)
          (opening created abstract l).1)
Leaves-opening l false abstract pathless named unlinks spelled = (refl, rw pathless refl)
Leaves-opening l true true pathless named unlinks spelled = Leaves-abstract l pathless spelled
Leaves-opening l true false pathless named unlinks spelled = go (path_error (own_path l.transport))
  where
    go :
        (fault : Option Error)
        → (let left = without (own_path l.transport) l.world.files in
            Leaves l (if is_none fault then left else l.world.files) (bind_on_disk fault l).1)
    go (some e) = (refl, rw pathless refl)
    go none = Leaves-file l (own_path l.transport) pathless named unlinks spelled

-- Whether the socket opens or a step of opening it fails, the connection closed again is what it was
-- before, and no file of its own is left; if files can be unlinked, and the path of the daemon's
-- socket can be encoded.
pub close_link-open_link :
    (l : Link)
    → IsClosed l.transport
    → is_empty (own_path l.transport) ≡ false
    → l.world.can_unlink ≡ true
    → is_encodable (address_of l.transport.path) ≡ true
    → (after close_link (after open_link l)).transport ≡ l.transport
      × (after close_link (after open_link l)).world.files ≡ files_left l
unfolding close_link
close_link-open_link l (off, pathless) named unlinks spelled =
    let opened = open_link-closed l off ∙ open_socket-opening l in
    let (same, files) =
      Leaves-opening l l.world.can_create l.world.has_abstract pathless named unlinks spelled in
    let close = λ (run : Result Unit × Link). after close_link run.1 in
    (
      ap (λ (run : Result Unit × Link). (close run).transport) opened
          ∙ same
          ∙ closed-IsClosed l.transport (off, pathless),
      ap (λ (run : Result Unit × Link). (close run).world.files) opened ∙ files,
    )
