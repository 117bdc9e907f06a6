-- ===== src/Transport/Socket/Closing.antt =====
-- What closing a connection of wpa_ctrl/transport.py takes away.
use wpa_ctrl_py.Base.{
  ◌∙◌, Bool, if◌then◌else◌, is_empty, false, Bool-cases, ◌==◌, ◌≡◌, ◌≢◌, refl, sym, ap, true, inl,
  inr, [], ◌∷◌, Option, none, some,
}
use mathlib.Core.Path.{subst}
use wpa_ctrl_py.Text.{Text, starts_with}
use wpa_ctrl_py.TextSet.{member}
use wpa_ctrl_py.Transport.World.{World, without}
use wpa_ctrl_py.Transport.Exec.{after}
use wpa_ctrl_py.Transport.Socket.{Link, unlink, close_link, path_join, default_client_dir}
use wpa_ctrl_py.Transport.Socket.Lifecycle.{without-member}
use wpa_ctrl_py.Transport.Socket.Tidy.{member-without, IsClean, HasFile, Tidy}

-- Where files can be unlinked, its own file is gone, and every other file was there.
pub unlink-gone :
    (own : Option Text) (w : World) (path : Text)
    → w.can_unlink ≡ true
    → own ≢ some []
    → member path (unlink own w).files ≡ true
    → (member path w.files ≡ true) × (own ≢ some path)
unlink-gone none w path unlinks real h = (h, λ e. cc)
unlink-gone (some []) w path unlinks real h = absurd (real refl)
unlink-gone (some (c ∷ own)) w path unlinks real h =
    let h' : member path (without (c ∷ own) w.files) ≡ true =
      ap (λ (can : Bool). member path (if can then without (c ∷ own) w.files else w.files))
        (sym unlinks)
      ∙ h in
    (
      member-without path (c ∷ own) w.files h',
      λ e.
          let same = ap (λ (o : Option Text). elim o [ none ↦ [] | some p ↦ p ]) e in
          cc (
            subst (λ (p : Text). member p (without (c ∷ own) w.files) ≡ true) (sym same) h',
            without-member (c ∷ own) w.files,
          ),
    )

-- What was tidy and is closed has no file that was not there.
pub close_link-files :
    (l l' : Link)
    → IsClean l
    → Tidy l l'
    → (path : Text) → HasFile (after close_link l') path
    → HasFile l path
unfolding close_link
close_link-files l l' clean tidy path h =
    let (clean', files, kept) = tidy clean in
    let (left, gone) =
      unlink-gone l'.transport.client_path l'.world path clean'.unlinks clean'.real h in
    elim (files path left) [ inl old ↦ old | inr own ↦ absurd (gone own) ]

-- A client bound in the default directory has a name there.
pub client_dir-full : (name : Text) → is_empty (path_join default_client_dir name) ≡ false
unfolding path_join starts_with
client_dir-full [] = refl
client_dir-full (c ∷ name) = elim (Bool-cases (b'/' == c)) [
  | inl same ↦ rw same refl
  | inr other ↦ rw other refl
]
