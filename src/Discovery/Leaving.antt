-- ===== src/Discovery/Leaving.antt =====
-- What asking the global socket leaves behind, in wpa_ctrl/discovery.py.
use mathlib.Core.Path.{subst}
use wpa_ctrl_py.Base.{◌≡◌, refl, sym, ap, ◌∙◌, inl, inr, true, false, none, some}
use wpa_ctrl_py.Result.{Result, ok, err, Result-cases, ok-injective}
use wpa_ctrl_py.Text.{Text, splitlines, join}
use wpa_ctrl_py.TextSet.{member}
use wpa_ctrl_py.Transport.World.{World}
use wpa_ctrl_py.Transport.Exec.{Exec, after, continue, pure}
use wpa_ctrl_py.Transport.Socket.{
  Transport, is_encodable, address_of, connected, open_link, close_link, default_ctrl_dir,
  default_client_dir, default_timeout,
}
use wpa_ctrl_py.Transport.Socket.Tidy.{IsClean, HasFile, Tidy, Tidy-trans}
use wpa_ctrl_py.Transport.Socket.Tidy.Opening.{open_link-Tidy}
use wpa_ctrl_py.Transport.Socket.Closing.{close_link-files, client_dir-full}
use wpa_ctrl_py.Client.State.{Client, new_client, open_client, close_client}
use wpa_ctrl_py.Client.Request.{request}
use wpa_ctrl_py.Client.Request.Files.{request-Tidy}
use wpa_ctrl_py.Client.Request.Opened.{open_link-refused}
use wpa_ctrl_py.Client.Commands.Wording.{nonempty}
use wpa_ctrl_py.Client.Commands.Station.{interfaces}
use wpa_ctrl_py.Discovery.{session}
use wpa_ctrl_py.Discovery.Asking.{question, session-opened, session-refused}

-- A body that keeps to its own file.
module _ {A : Type 0} (body : Exec Client A)
    (tidy : (c : Client) → Tidy c.link (after body c).link) where
  session-files :
      (c : Client)
      → IsClean c.link
      → (path : Text) → HasFile (after (session body) c).link path
      → HasFile c.link path
  unfolding close_link close_client
  session-files c clean path h = elim (Result-cases (open_link c.link).0) [
    | inl (u, opened) ↦
        let c' = after open_client c in
        close_link-files c.link (after body c').link clean
          (Tidy-trans c.link c'.link (after body c').link (open_link-Tidy c.link) (tidy c')) path
          (ap (λ (run : Result A × Client). member path run.1.link.world.files)
              (sym (session-opened body c opened))
            ∙ h)
    | inr (e, refused) ↦
        let (same, off) = open_link-refused c.link e refused in
        let (clean', files, kept) = open_link-Tidy c.link clean in
        let h' =
          ap (λ (run : Result A × Client). member path run.1.link.world.files)
            (sym (session-refused body c e refused))
          ∙ h in
        elim (files path h') [
          | inl old ↦ old
          | inr own ↦
              let pathless =
                sym (ap (λ (t : Transport). t.client_path) same ∙ clean.closed off) ∙ own in
              cc
        ]
  ]

session-off :
    {A : Type 0} (body : Exec Client A) (c : Client)
    → connected (after (session body) c).link.transport ≡ false
unfolding close_link close_client
session-off {A} body c = elim (Result-cases (open_link c.link).0) [
  | inl (u, opened) ↦
      ap (λ (run : Result A × Client). connected run.1.link.transport)
        (session-opened body c opened)
  | inr (e, refused) ↦
      let (same, off) = open_link-refused c.link e refused in
      ap (λ (run : Result A × Client). connected run.1.link.transport)
        (session-refused body c e refused)
      ∙ ap connected same
      ∙ off
]

interfaces-Tidy : (c : Client) → Tidy c.link (after interfaces c).link
unfolding join
interfaces-Tidy c =
    go (request question none c).0 (request question none c).1 (request-Tidy question none c)
  where
    go :
        (r : Result Text) (c' : Client)
        → Tidy c.link c'.link
        → Tidy c.link
            (continue r (λ reply. pure {S = Client} (nonempty (splitlines reply))) c').1.link
    go (ok reply) c' tidy = tidy
    go (err e) c' tidy = tidy

-- The client that is made for the global socket.
made-Clean :
    (path name : Text) (world : World) (c : Client)
    → new_client none default_ctrl_dir (some path) default_client_dir default_timeout name world
      ≡ ok c
    → is_encodable (address_of path) ≡ true
    → world.can_unlink ≡ true
    → IsClean c.link
unfolding new_client
made-Clean path name world c h spelled unlinks =
    subst (λ (d : Client). IsClean d.link) (ok-injective h)
      (record {
        closed = λ off. refl;
        named = client_dir-full name;
        real = λ h. cc;
        spelled = spelled;
        unlinks = unlinks;
      })

-- The session with the global socket ends without a connection, and with no file that was not
-- there before, whichever steps of it fail; if files can be unlinked, and the path of the global
-- socket can be encoded.
pub session-interfaces :
    (path name : Text) (world : World) (c : Client)
    → new_client none default_ctrl_dir (some path) default_client_dir default_timeout name world
      ≡ ok c
    → is_encodable (address_of path) ≡ true
    → world.can_unlink ≡ true
    → (connected (after (session interfaces) c).link.transport ≡ false)
      × ((file : Text) → HasFile (after (session interfaces) c).link file → HasFile c.link file)
session-interfaces path name world c made spelled unlinks = (
  session-off interfaces c,
  session-files interfaces interfaces-Tidy c (made-Clean path name world c made spelled unlinks),
)
