-- ===== src/Client/State.antt =====
-- The state of `WpaCtrl` in wpa_ctrl/client.py, and how its methods act on the transport below.
use wpa_ctrl_py.Base.{ℕ, Bool, false, List, [], Option, none, some}
use wpa_ctrl_py.Result.{Result, ok, err, value_error}
use wpa_ctrl_py.Text.{Text}
use wpa_ctrl_py.Event.{Event}
use wpa_ctrl_py.Transport.World.{World, Arrival}
use wpa_ctrl_py.Transport.Exec.{Exec, ◌>>◌, modify}
use wpa_ctrl_py.Transport.Socket.{Link, interface_path, open_link, close_link, fileno}

-- The attributes of the object; its transport stands in the link to the world.
pub record Client : Type 0 where
  pub link : Link
  pub timeout : ℕ
  pub attached : Bool
  pub events : List Event

-- `__init__`: the path is given, or stands for an interface. `name` is the address that the process
-- and the object's identity make unique.
unfoldable pub new_client :
    Option Text → Text → Option Text → Text → ℕ → Text → World → Result Client
new_client ifname ctrl_dir path client_dir timeout name world = elim (path_of ifname path) [
  | none ↦ err value_error
  | some p ↦ ok (record {
    link = record {
      transport = record {
        path = p;
        client_dir = client_dir;
        timeout = timeout;
        name = name;
        socket = none;
        client_path = none;
      };
      world = world;
    };
    timeout = timeout;
    attached = false;
    events = [];
  })
]
  where
    path_of : Option Text → Option Text → Option Text
    path_of ifname (some p) = some p
    path_of (some i) none = some (interface_path i ctrl_dir)
    path_of none none = none

abbrev pub on_link : {A : Type 0} → Exec Link A → Exec Client A
on_link m c = let (r, l) = m c.link in (r, record c { link = l })

-- `open`.
abbrev pub open_client : Exec Client (Unit {0})
open_client = on_link open_link

-- `close`.
unfoldable pub close_client : Exec Client (Unit {0})
close_client = do on_link close_link; modify (λ c. record c { attached = false; events = [] })

-- `__enter__` and `__exit__`.
abbrev pub enter_client : Exec Client (Unit {0})
enter_client = open_client

abbrev pub exit_client : Exec Client (Unit {0})
exit_client = close_client

-- `path`.
abbrev pub client_path : Client → Text
client_path c = c.link.transport.path

-- `fileno`.
abbrev pub client_fileno : (Link → ℕ) → Exec Client ℕ
client_fileno descriptor = on_link (fileno descriptor)

abbrev pub with_world : Client → World → Client
with_world c w = record c { link = record c.link { world = w } }

abbrev pub with_inbox : Client → List Arrival → Client
with_inbox c inbox = with_world c (record c.link.world { inbox = inbox })
