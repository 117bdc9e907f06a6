-- ===== src/Transport/Socket/Tidy/Opening.antt =====
-- Which files `open` of wpa_ctrl/transport.py leaves, where it fails as well.
use wpa_ctrl_py.Base.{
  ◌≡◌, ◌≢◌, refl, sym, ap, ◌∙◌, ◌⊎◌, inl, inr, Bool, true, false, not, ◌&&◌, List, [], ◌∷◌, Option,
  none, some, is_empty, if◌then◌else◌, Bool-cases, arith, some-injective,
}
use mathlib.Core.Path.{subst}
use wpa_ctrl_py.Result.{Error, Result, ok, err, connection_error}
use wpa_ctrl_py.Text.{Text, text_eq}
use wpa_ctrl_py.Dict.Laws.{text_eq_iff}
use wpa_ctrl_py.TextSet.{member}
use wpa_ctrl_py.Transport.World.{World, without, bind_file, unlink_file}
use wpa_ctrl_py.Transport.Exec.{after}
use wpa_ctrl_py.Transport.Socket.{
  Transport, Link, connected, own_path, open_link, open_socket, connect, unlink, address_of,
}
use wpa_ctrl_py.Transport.Socket.{path_error, opening, bind_on_disk}
use wpa_ctrl_py.Transport.Socket.Lifecycle.{open_socket-opening, without-bound}
use wpa_ctrl_py.Transport.Socket.Tidy.{
  IsClean, HasFile, Owns, Tidy, Tidy-refl, member-without, member-unlink_file,
}

unlinked-same : (path : Option Text) (w : World) → (unlink path w).can_unlink ≡ w.can_unlink
unlinked-same none w = refl
unlinked-same (some []) w = refl
unlinked-same (some (c ∷ path)) w = refl

-- The connect, and the handler of its failure.
connect-Tidy :
    (l : Link) (own : Option Text) (bound : Option World) (w : World)
    → connected l.transport ≡ false
    → own ≢ some []
    → w.can_unlink ≡ l.world.can_unlink
    → ((path : Text) → member path (unlink own w).files ≡ true → HasFile l path)
    → ((w' : World)
        → bound ≡ some w'
        → (w'.can_unlink ≡ l.world.can_unlink)
          × ((path : Text) → member path w'.files ≡ true → HasFile l path ⊎ (own ≡ some path))
          × (l.world.can_unlink ≡ true
              → (path : Text) → member path (unlink own w').files ≡ true
              → HasFile l path))
    → Tidy l (connect l.transport own bound w).1
connect-Tidy l own none w off real same undo bind clean = (
  record {
    closed = clean.closed;
    named = clean.named;
    real = clean.real;
    spelled = clean.spelled;
    unlinks = unlinked-same own w ∙ same ∙ clean.unlinks;
  },
  λ path h. inl (undo path h),
  λ path h. h,
)
connect-Tidy l own (some w') w off real same undo bind clean = rw clean.spelled (go w'.can_connect)
  where
    opened : Transport
    opened = record l.transport { socket = some (address_of l.transport.path); client_path = own }

    go :
        (went : Bool)
        → (let run : Result {0} (Unit {0}) × Link =
              if went then (ok tt, record { transport = opened; world = w' }) else (
                err connection_error,
                record { transport = l.transport; world = unlink own w' },
              ) in
            IsClean run.1
            × ((path : Text) → HasFile run.1 path → HasFile l path ⊎ Owns run.1 path)
            × ((path : Text) → Owns l path → Owns run.1 path))
    go true = (
      record {
        closed = λ h. cc;
        named = clean.named;
        real = real;
        spelled = clean.spelled;
        unlinks = (bind w' refl).0 ∙ clean.unlinks;
      },
      (bind w' refl).1,
      λ path h. cc (clean.closed off),
    )
    go false = (
      record {
        closed = clean.closed;
        named = clean.named;
        real = clean.real;
        spelled = clean.spelled;
        unlinks = unlinked-same own w' ∙ (bind w' refl).0 ∙ clean.unlinks;
      },
      λ path h. inl ((bind w' refl).2 clean.unlinks path h),
      λ path h. h,
    )

bound_files :
    (path : Text) (w w' : World)
    → bind_file path w ≡ some w'
    → (w'.files ≡ path ∷ w.files) × (w'.can_unlink ≡ w.can_unlink)
unfolding bind_file
bound_files path w w' h = go (w.can_bind && not (member path w.files)) h
  where
    go :
        (fits : Bool)
        → (if fits then some (record w { files = path ∷ w.files }) else none) ≡ some w'
        → (w'.files ≡ path ∷ w.files) × (w'.can_unlink ≡ w.can_unlink)
    go true e =
        let same = some-injective e in
        (sym (ap (λ (v : World). v.files) same), sym (ap (λ (v : World). v.can_unlink) same))
    go false e = cc

member-bound :
    (q path : Text) (files : List Text)
    → member q (path ∷ files) ≡ true
    → (member q files ≡ true) ⊎ (some path ≡ some q)
unfolding member
member-bound q path files h = elim (Bool-cases (text_eq path q)) [
  | inl same ↦ inr (ap (λ (p : Text). some p) ((text_eq_iff path q).0 same))
  | inr other ↦ inl (ground arith)
]

unlink_file-files :
    (path : Text) (w : World)
    → w.can_unlink ≡ true
    → (unlink_file path w).files ≡ without path w.files
unlink_file-files path w can = ap (λ (b : Bool). if b then without path w.files else w.files) can

file-Tidy :
    (l : Link) (path : Text)
    → connected l.transport ≡ false
    → is_empty path ≡ false
    → (let cleared = unlink (some path) l.world in
        Tidy l (connect l.transport (some path) (bind_file path cleared) cleared).1)
file-Tidy l [] off named = cc
file-Tidy l (c ∷ path) off named =
    let own = c ∷ path in
    let cleared = unlink_file own l.world in
    let old = λ (q : Text). member-unlink_file q own l.world in
    connect-Tidy l (some own) (bind_file own cleared) cleared off (λ h. cc) refl
      (λ q h. old q (member-unlink_file q own cleared h))
      λ w' e.
        let (files, same) = bound_files own cleared w' e in
        (
          same,
          λ q h. elim (member-bound q own cleared.files (ap (member q) (sym files) ∙ h)) [
            | inl before ↦ inl (old q before)
            | inr new ↦ inr new
          ],
          λ can q h.
              let gone =
                unlink_file-files own w' (same ∙ can)
                ∙ ap (without own) (files ∙ ap (◌∷◌ own) (unlink_file-files own l.world can))
                ∙ without-bound own l.world.files in
              member-without q own l.world.files (ap (member q) (sym gone) ∙ h),
        )

opening-Tidy :
    (created abstract : Bool) (l : Link)
    → connected l.transport ≡ false
    → is_empty (own_path l.transport) ≡ false
    → Tidy l (opening created abstract l).1
opening-Tidy false abstract l off named = Tidy-refl l
opening-Tidy true true l off named =
    connect-Tidy l none (some l.world) l.world off (λ h. cc) refl (λ path h. h)
      λ w' e.
        let back = λ (path : Text) (h : member path w'.files ≡ true).
          ap (λ (w : World). member path w.files) (some-injective e) ∙ h in
        (
          sym (ap (λ (w : World). w.can_unlink) (some-injective e)),
          λ path h. inl (back path h),
          λ can. back,
        )
opening-Tidy true false l off named = go (path_error (own_path l.transport))
  where
    go : (fault : Option Error) → Tidy l (bind_on_disk fault l).1
    go (some e) = Tidy-refl l
    go none = file-Tidy l (own_path l.transport) off named

-- Opening, whatever of it fails.
pub open_link-Tidy : (l : Link) → Tidy l (after open_link l)
unfolding open_link
open_link-Tidy l clean = go (connected l.transport) refl
  where
    go :
        (on : Bool)
        → connected l.transport ≡ on
        → (let run : Result {0} (Unit {0}) × Link = if on then (ok tt, l) else open_socket l in
            IsClean run.1
            × ((path : Text) → HasFile run.1 path → HasFile l path ⊎ Owns run.1 path)
            × ((path : Text) → Owns l path → Owns run.1 path))
    go true on = Tidy-refl l clean
    go false off =
        subst (λ (run : Result {0} (Unit {0}) × Link). Tidy l run.1) (sym (open_socket-opening l))
          (opening-Tidy l.world.can_create l.world.has_abstract l off clean.named) clean
