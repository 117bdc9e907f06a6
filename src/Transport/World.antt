-- ===== src/Transport/World.antt =====
-- The part of the operating system that wpa_ctrl/transport.py calls: a monotonic clock, the files
-- that sockets are bound to, and the datagrams that arrive. Times are whole milliseconds; time
-- passes only while a call waits.
use wpa_ctrl_py.Base.{
  ℕ, ◌+◌, Bool, true, false, not, ◌&&◌, List, [], ◌∷◌, ◌++◌, Option, none, some, ltb, leb,
  if◌then◌else◌, map,
}
use wpa_ctrl_py.Text.{Text, Bytes, text_eq}
use wpa_ctrl_py.TextSet.{member}

-- What the kernel hands to one `recv`: a datagram, or an OSError.
pub data Packet : Type 0 where
  datagram : Bytes → Packet
  failure : Packet

pub record Arrival : Type 0 where
  pub at : ℕ
  pub packet : Packet

-- `inbox` holds the arrivals in the order in which `recv` returns them. `daemon` says what the other
-- side sends when a command is put behind those sent before: each packet with its delay. The
-- Booleans say which system calls succeed.
pub record World : Type 0 where
  pub clock : ℕ
  pub inbox : List Arrival
  pub sent : List Bytes
  pub daemon : List Bytes → List Arrival
  pub files : List Text
  pub has_abstract : Bool
  pub can_create : Bool
  pub can_unlink : Bool
  pub can_bind : Bool
  pub can_connect : Bool
  pub can_send : Bool
  pub can_select : Bool

-- The files without the path.
unfoldable pub without : Text → List Text → List Text
without path [] = []
without path (f ∷ files) =
    let rest = without path files in if text_eq f path then rest else f ∷ rest

-- `os.unlink`, and the handler that ignores its OSError: a file that cannot be unlinked stays.
abbrev pub unlink_file : Text → World → World
unlink_file path w = record w { files = if w.can_unlink then without path w.files else w.files }

-- `sock.bind(path)`: it makes a file, and fails where one is.
unfoldable pub bind_file : Text → World → Option World
bind_file path w =
    if w.can_bind && not (member path w.files)
    then some (record w { files = path ∷ w.files })
    else none

abbrev pub later : ℕ → Arrival → Arrival
later now a = record a { at = now + a.at }

-- `sock.send(data)`: the daemon's packets queue up behind what is on its way.
unfoldable pub send_data : Bytes → World → Option World
send_data bytes w =
    let sent = w.sent ++ bytes ∷ [] in
    if w.can_send
    then some (record w { sent = sent; inbox = w.inbox ++ map (later w.clock) (w.daemon sent) })
    else none

-- What `recv` does: it returns, it fails, or no datagram comes in time.
pub data Received : Type 0 where
  data_in : Bytes → Received
  failed : Received
  timed_out : Received

abbrev pub max_ℕ : ℕ → ℕ → ℕ
max_ℕ a b = if ltb a b then b else a

abbrev pub received : Packet → Received
received (datagram bytes) = data_in bytes
received failure = failed

abbrev pub recv_from : ℕ → World → List Arrival → Received × World
recv_from timeout w [] = (timed_out, record w { clock = w.clock + timeout })
recv_from timeout w (a ∷ rest) =
    if leb a.at (w.clock + timeout)
    then (received a.packet, record w { clock = max_ℕ w.clock a.at; inbox = rest })
    else (timed_out, record w { clock = w.clock + timeout })

-- `sock.recv` under `settimeout(timeout)`.
unfoldable pub recv : ℕ → World → Received × World
recv timeout w = recv_from timeout w w.inbox

abbrev pub select_on : ℕ → World → List Arrival → Bool × World
select_on timeout w [] = (false, record w { clock = w.clock + timeout })
select_on timeout w (a ∷ rest) =
    if leb a.at (w.clock + timeout)
    then (true, record w { clock = max_ℕ w.clock a.at })
    else (false, record w { clock = w.clock + timeout })

-- `select.select([sock], [], [], timeout)`.
unfoldable pub select_ready : ℕ → World → Bool × World
select_ready timeout w = select_on timeout w w.inbox
