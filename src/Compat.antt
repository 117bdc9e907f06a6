-- ===== src/Compat.antt =====
-- wpa_ctrl/compat.py: commands in the manner of wpa_cli, over one shared client for each interface.
pub mod Spelling
pub mod Judging
pub mod Tables
pub mod Files
pub mod Executing
pub mod Answering
use wpa_ctrl_py.Base.{
  ℕ, ◌+◌, Bool, true, false, ◌||◌, List, [], ◌∷◌, ◌++◌, Option, none, some, if◌then◌else◌,
}
use wpa_ctrl_py.Result.{
  Result, Error, ok, err, value_error, unicode_error, os_error, endless, connection_error,
  timeout_error, command_failed,
}
use wpa_ctrl_py.Text.{Text, codes, text_eq, starts_with, partition, join, rstrip}
use wpa_ctrl_py.Text.Upper.{upper}
use wpa_ctrl_py.Event.{is_newline}
use wpa_ctrl_py.Transport.World.{World}
use wpa_ctrl_py.Transport.Exec.{Exec, ◌>>=◌, lift}
use wpa_ctrl_py.Transport.Socket.{default_ctrl_dir, default_client_dir, default_timeout}
use wpa_ctrl_py.Client.State.{Client, new_client, close_client, with_world}
use wpa_ctrl_py.Client.Request.{request, reply_ok}

abbrev pub default_interface : Text
default_interface = codes "wlan0"

abbrev pub reply_fail : Text
reply_fail = codes "FAIL"

abbrev pub reply_unknown : Text
reply_unknown = codes "UNKNOWN COMMAND"

-- `_clients`: a dict of objects in the order of insertion.
abbrev pub Clients : Type 0
Clients = List (Text × Client)

unfoldable pub find_client : Text → Clients → Option Client
find_client ifname [] = none
find_client ifname ((name, c) ∷ clients) =
    if text_eq name ifname then some c else find_client ifname clients

unfoldable pub put_client : Text → Client → Clients → Clients
put_client ifname c [] = (ifname, c) ∷ []
put_client ifname c ((name, old) ∷ clients) =
    let rest = put_client ifname c clients in
    if text_eq name ifname then (name, c) ∷ clients else (name, old) ∷ rest

-- The state of the module, and what its clients share of the system: the clock and the files.
-- `made` counts the clients made so far; `name_of` and `world_of` give the address and the side of
-- the system that the next one meets.
pub record Shared : Type 0 where
  pub clients : Clients
  pub clock : ℕ
  pub files : List Text
  pub made : ℕ
  pub name_of : ℕ → Text
  pub world_of : ℕ → World

-- The client sees the time and the files as they are now.
abbrev pub at_present : Shared → Client → Client
at_present s c = with_world c (record c.link.world { clock = s.clock; files = s.files })

-- What a call on the client of an interface leaves.
abbrev pub write_back : Text → Client → Shared → Shared
write_back ifname c s = record s {
  clients = put_client ifname c s.clients;
  clock = c.link.world.clock;
  files = c.link.world.files;
}

-- `WpaCtrl(ifname)`.
unfoldable pub make_client : Text → Shared → Result Client
make_client ifname s =
    new_client (some ifname) default_ctrl_dir none default_client_dir default_timeout
      (s.name_of s.made) (s.world_of s.made)

abbrev pub remember : Text → Result Client → Exec Shared Client
remember ifname (ok c) s =
    (ok c, record s { clients = put_client ifname c s.clients; made = s.made + 1 })
remember ifname (err e) s = (err e, s)

unfoldable pub get_client : Text → Exec Shared Client
get_client ifname s = elim (find_client ifname s.clients) [
  | none ↦ remember ifname (make_client ifname s) s
  | some c ↦ (ok c, s)
]

-- A method of the client, as the interpreter runs it on the shared object.
unfoldable pub call_client : {A : Type 0} → Text → Exec Client A → Client → Exec Shared A
call_client ifname body c s = let (r, c') = body (at_present s c) in (r, write_back ifname c' s)

-- Closes the clients of a table, the last first; an error of closing is logged.
unfoldable pub close_each : Clients → Shared → Shared
close_each [] s = s
close_each ((name, c) ∷ clients) s =
    let s' = close_each clients s in
    let c' = (close_client (at_present s' c)).1 in
    record s' { clock = c'.link.world.clock; files = c'.link.world.files }

unfoldable pub close_all : Shared → Shared
close_all s = record (close_each s.clients s) { clients = [] }

-- The verb in upper case, and the rest as it is.
unfoldable pub canonical : List Text → Text
canonical args =
    let split = partition b' ' (join (codes " ") args) in
    upper split.before ++ ((if split.found then codes " " else []) ++ split.after)

-- What becomes of the reply.
unfoldable pub judge_output : Text → Bool × Option Text
judge_output output =
    if starts_with reply_fail output || starts_with reply_unknown output
    then (false, none)
    else if text_eq output reply_ok
    then (true, none)
    else (true, some output)

-- The handler of WpaCtrlError, and what stands behind it.
unfoldable pub judge_reply : Result Text → Result (Bool × Option Text)
judge_reply (ok reply) = ok (judge_output (rstrip is_newline reply))
judge_reply (err value_error) = err value_error
judge_reply (err unicode_error) = err unicode_error
judge_reply (err os_error) = err os_error
judge_reply (err endless) = err endless
judge_reply (err e) = ok (false, none)

-- `get_client(ifname).request(command)`.
unfoldable pub request_on : Text → Text → Exec Shared Text
request_on ifname command = do c ← get_client ifname; call_client ifname (request command none) c

-- `no_logging` only says what is logged.
unfoldable pub execute_command : List Text → Text → Exec Shared (Bool × Option Text)
execute_command args ifname s =
    let (reply, s') = request_on ifname (canonical args) s in (judge_reply reply, s')
