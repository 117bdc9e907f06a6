-- ===== src/Transport/Socket/Ignoring.antt =====
-- Opening a connection of wpa_ctrl/transport.py touches nothing but files.
use wpa_ctrl_py.Base.{
  ◌≡◌, refl, sym, ap, ◌∙◌, Bool, true, false, not, ◌&&◌, List, [], ◌∷◌, Option, none, some,
  if◌then◌else◌, some-injective,
}
use wpa_ctrl_py.Result.{Error, unicode_error, Result, ok, err, connection_error}
use wpa_ctrl_py.Text.{Text}
use wpa_ctrl_py.TextSet.{member}
use wpa_ctrl_py.Transport.World.{World, without, bind_file}
use wpa_ctrl_py.Transport.Socket.{
  Transport, Link, connected, own_path, connect, unlink, address_of, open_link, open_socket,
}
use wpa_ctrl_py.Transport.Socket.{is_encodable, path_error, opening, bind_on_disk}
use wpa_ctrl_py.Transport.Socket.Lifecycle.{open_socket-opening}

-- A part of the world that no file belongs to.
module _ {X : Type 0} (part : World → X)
    (ignores : (w : World) (files : List Text) → part (record w { files = files }) ≡ part w) where
  unlink-ignores : (path : Option Text) (w : World) → part (unlink path w) ≡ part w
  unlink-ignores none w = refl
  unlink-ignores (some []) w = refl
  unlink-ignores (some (c ∷ path)) w =
      ignores w (if w.can_unlink then without (c ∷ path) w.files else w.files)

  bind_file-ignores : (path : Text) (w w' : World) → bind_file path w ≡ some w' → part w' ≡ part w
  unfolding bind_file
  bind_file-ignores path w w' h = go (w.can_bind && not (member path w.files)) h
    where
      go :
          (fits : Bool)
          → (if fits then some (record w { files = path ∷ w.files }) else none) ≡ some w'
          → part w' ≡ part w
      go true e = ap part (sym (some-injective e)) ∙ ignores w (path ∷ w.files)
      go false e = cc

  connect-ignores :
      (t : Transport) (own : Option Text) (bound : Option World) (w : World)
      → ((w' : World) → bound ≡ some w' → part w' ≡ part w)
      → part (connect t own bound w).1.world ≡ part w
  connect-ignores t own none w h = unlink-ignores own w
  connect-ignores t own (some w') w h = go (is_encodable (address_of t.path)) w'.can_connect
    where
      opened : Transport
      opened = record t { socket = some (address_of t.path); client_path = own }

      go :
          (spelled went : Bool)
          → (let run : Result {0} (Unit {0}) × Link =
                if not spelled
                then (err unicode_error, record { transport = t; world = w' })
                else if went
                then (ok tt, record { transport = opened; world = w' })
                else (err connection_error, record { transport = t; world = unlink own w' }) in
              part run.1.world ≡ part w)
      go false went = h w' refl
      go true true = h w' refl
      go true false = unlink-ignores own w' ∙ h w' refl

  bind_on_disk-ignores :
      (fault : Option Error) (l : Link) → part (bind_on_disk fault l).1.world ≡ part l.world
  bind_on_disk-ignores (some e) l = refl
  bind_on_disk-ignores none l =
      let path = own_path l.transport in
      let cleared = unlink (some path) l.world in
      connect-ignores l.transport (some path) (bind_file path cleared) cleared
        (bind_file-ignores path cleared)
      ∙ unlink-ignores (some path) l.world

  opening-ignores :
      (created abstract : Bool) (l : Link)
      → part (opening created abstract l).1.world ≡ part l.world
  opening-ignores false abstract l = refl
  opening-ignores true true l =
      connect-ignores l.transport none (some l.world) l.world
        λ w' e. ap part (sym (some-injective e))
  opening-ignores true false l = bind_on_disk-ignores (path_error (own_path l.transport)) l

  pub open_link-ignores : (l : Link) → part (open_link l).1.world ≡ part l.world
  unfolding open_link
  open_link-ignores l = go (connected l.transport)
    where
      go :
          (on : Bool)
          → (let run : Result {0} (Unit {0}) × Link = if on then (ok tt, l) else open_socket l in
              part run.1.world ≡ part l.world)
      go true = refl
      go false =
          ap (λ (run : Result {0} (Unit {0}) × Link). part run.1.world) (open_socket-opening l)
          ∙ opening-ignores l.world.can_create l.world.has_abstract l
