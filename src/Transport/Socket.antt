-- ===== src/Transport/Socket.antt =====
-- `CtrlTransport` of wpa_ctrl/transport.py: each method is an action on the transport and the world.
pub mod Lifecycle
pub mod Receiving
pub mod Ignoring
pub mod Tidy
pub mod Closing
pub mod Carrying
use wpa_ctrl_py.Base.{
  ℕ, ◌+◌, ◌-◌, Bool, true, false, not, ◌||◌, ◌&&◌, any, List, [], ◌∷◌, ◌++◌, Option, none, some,
  ◌==◌, if◌then◌else◌, take, drop, length, is_empty,
}
use wpa_ctrl_py.Result.{
  Error, value_error, unicode_error, os_error, Result, ok, err, connection_error, timeout_error,
}
use wpa_ctrl_py.Text.{between, Text, Bytes, codes, starts_with}
use wpa_ctrl_py.Text.Utf8.{encode, decode_replace}
use wpa_ctrl_py.Transport.World.{
  World, Received, data_in, failed, timed_out, unlink_file, bind_file, send_data, recv,
  select_ready,
}
use wpa_ctrl_py.Transport.Exec.{Exec, ◌>>=◌, ◌>>◌, pure, raise, modify, gets, lift}

abbrev pub default_ctrl_dir : Text
default_ctrl_dir = codes "/var/run/wpa_supplicant"

abbrev pub hostapd_ctrl_dir : Text
hostapd_ctrl_dir = codes "/var/run/hostapd"

abbrev pub default_client_dir : Text
default_client_dir = codes "/tmp"

-- Five seconds.
abbrev pub default_timeout : ℕ
default_timeout = 5000

abbrev pub abstract_prefix : Text
abstract_prefix = codes "@abstract:"

abbrev pub recv_buffer : ℕ
recv_buffer = 65536

abbrev ends_with_slash : Text → Bool
ends_with_slash [] = false
ends_with_slash (c ∷ []) = c == b'/'
ends_with_slash (c ∷ d ∷ text) = ends_with_slash (d ∷ text)

-- `os.path.join(directory, name)`.
unfoldable pub path_join : Text → Text → Text
path_join directory name =
    if starts_with (codes "/") name
    then name
    else if is_empty directory || ends_with_slash directory
    then directory ++ name
    else directory ++ b'/' ∷ name

-- `interface_path`.
abbrev pub interface_path : Text → Text → Text
interface_path ifname ctrl_dir = path_join ctrl_dir ifname

-- `_address`.
unfoldable pub address_of : Text → Text
address_of path =
    if starts_with abstract_prefix path then 0 ∷ drop (length abstract_prefix) path else path

-- The attributes of the object. `name` is the address that the process and the object's identity
-- make unique; `socket` is the address that the socket is connected to.
pub record Transport : Type 0 where
  pub path : Text
  pub client_dir : Text
  pub timeout : ℕ
  pub name : Text
  pub socket : Option Text
  pub client_path : Option Text

pub record Link : Type 0 where
  pub transport : Transport
  pub world : World

-- `connected`.
abbrev pub connected : Transport → Bool
connected t = elim t.socket [ none ↦ false | some address ↦ true ]

-- `_unlink`: nothing for None and for an empty path.
abbrev pub unlink : Option Text → World → World
unlink none w = w
unlink (some []) w = w
unlink (some (c ∷ path)) w = unlink_file (c ∷ path) w

-- The path that the client's own socket is bound to, where it needs one.
abbrev pub own_path : Transport → Text
own_path t = path_join t.client_dir t.name

-- `os.fsencode` succeeds: the only surrogates are those that stand for an undecodable byte.
unfoldable pub is_encodable : Text → Bool
is_encodable [] = true
is_encodable (c ∷ path) =
    let rest = is_encodable path in not (between 0xD800 0xDC7F c || between 0xDD00 0xDFFF c) && rest

-- What a function of `os` raises for a path that it cannot hand to the system.
unfoldable pub path_error : Text → Option Error
path_error path =
    if not (is_encodable path)
    then some unicode_error
    else if any (λ c. c == 0) path
    then some value_error
    else none

-- Behind a bind that failed or succeeded: the connect, and the handler of an OSError of either. The
-- exception for a path that cannot be encoded is none, and leaves the socket's file where it is.
abbrev pub connect : Transport → Option Text → Option World → World → Result (Unit {0}) × Link
connect t client_path none w =
    (err connection_error, record { transport = t; world = unlink client_path w })
connect t client_path (some w') w =
    if not (is_encodable (address_of t.path))
    then (err unicode_error, record { transport = t; world = w' })
    else if w'.can_connect
    then (
      ok tt,
      record {
        transport = record t { socket = some (address_of t.path); client_path = client_path };
        world = w';
      },
    )
    else (err connection_error, record { transport = t; world = unlink client_path w' })

-- Where there is no abstract namespace, what `os.unlink` makes of the client's own path comes first:
-- an exception other than OSError leaves the method.
abbrev pub bind_on_disk : Option Error → Link → Result (Unit {0}) × Link
bind_on_disk (some e) l = (err e, l)
bind_on_disk none l =
    let path = own_path l.transport in
    let cleared = unlink (some path) l.world in
    connect l.transport (some path) (bind_file path cleared) cleared

-- Whether `socket.socket` succeeds, which stands in front of the handler, and whether there is an
-- abstract namespace.
abbrev pub opening : Bool → Bool → Link → Result (Unit {0}) × Link
opening false abstract l = (err os_error, l)
opening true true l = connect l.transport none (some l.world) l.world
opening true false l = bind_on_disk (path_error (own_path l.transport)) l

-- `open` without its guard: the abstract namespace, or a path on disk.
unfoldable pub open_socket : Exec Link (Unit {0})
open_socket l = opening l.world.can_create l.world.has_abstract l

unfoldable pub open_link : Exec Link (Unit {0})
open_link l = if connected l.transport then (ok tt, l) else open_socket l

unfoldable pub close_link : Exec Link (Unit {0})
close_link l = (
  ok tt,
  record {
    transport = record l.transport { socket = none; client_path = none };
    world = unlink l.transport.client_path l.world;
  },
)

-- `__enter__` and `__exit__`: the latter lets an exception through.
abbrev pub enter_link : Exec Link (Unit {0})
enter_link = open_link

abbrev pub exit_link : Exec Link (Unit {0})
exit_link = close_link

-- `_require_socket`.
unfoldable pub require_socket : Exec Link (Unit {0})
require_socket l = if connected l.transport then (ok tt, l) else (err connection_error, l)

abbrev sent : Option World → Exec Link (Unit {0})
sent none l = (err connection_error, l)
sent (some w) l = (ok tt, record l { world = w })

unfoldable pub send : Text → Exec Link (Unit {0})
send command = do
  require_socket
  bytes ← lift (encode command)
  w ← gets (λ l. l.world)
  sent (send_data bytes w)

-- What the handlers of `receive` make of the outcome. A timeout of 0 makes the socket non-blocking:
-- with nothing there `recv` then raises BlockingIOError, which is an OSError and no timeout.
abbrev pub received_text : ℕ → Received → Result Text
received_text timeout (data_in bytes) = ok (decode_replace (take recv_buffer bytes))
received_text timeout failed = err connection_error
received_text timeout timed_out = if timeout == 0 then err connection_error else err timeout_error

abbrev pub timeout_or : Option ℕ → ℕ → ℕ
timeout_or none timeout = timeout
timeout_or (some t) timeout = t

unfoldable pub receive : Option ℕ → Exec Link Text
receive timeout = do
  require_socket
  limit ← gets (λ l. timeout_or timeout l.transport.timeout)
  λ l. let (r, w) = recv limit l.world in (received_text limit r, record l { world = w })

-- `fileno`, where the system says which number it gave the socket.
unfoldable pub fileno : (Link → ℕ) → Exec Link ℕ
fileno descriptor = do require_socket; gets descriptor

unfoldable pub pending : ℕ → Exec Link Bool
pending timeout = do
  require_socket
  λ l.
      let (ready, w) = select_ready timeout l.world in
      if l.world.can_select then (ok ready, record l { world = w }) else (err connection_error, l)

-- `remaining(deadline)`.
abbrev pub remaining : ℕ → Link → ℕ
remaining deadline l = deadline - l.world.clock
