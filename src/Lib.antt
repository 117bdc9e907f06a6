-- ===== src/Lib.antt =====
-- Verification library of wpa-ctrl-py, a client of the control interface of wpa_supplicant and
-- hostapd (the package wpa_ctrl).
--
-- The program. A client (wpa_ctrl/client.py) sends commands as datagrams over a transport
-- (wpa_ctrl/transport.py) and reads replies; datagrams that begin with "<" are events
-- (wpa_ctrl/events.py) and are set aside while a reply is awaited. Replies and payloads are read by
-- the parsers of wpa_ctrl/replies.py, wpa_ctrl/security.py, wpa_ctrl/ssid.py and wpa_ctrl/dpp.py.
--
-- The modules, and what they model:
--   Base       shared names: tests and lists over the native numbers, integers.
--   Result     the exceptions of wpa_ctrl/errors.py as values.
--   Text       texts as lists of code points, with the methods of `str` and `bytes` that the program
--              calls: find, split, partition, strip, splitlines, UTF-8, hex, `int`.
--   Dict, TextSet   the dicts and the sets of texts, in insertion order.
--   Ssid       wpa_ctrl/ssid.py: Decode is `printf_decode`, Config the class `Ssid`, Quote the secrets.
--   Security   wpa_ctrl/security.py: Suites is `_scan_key_mgmt`, the parent `parse_security` and the
--              predicates of the class `Security`; Views is what a caller sees of it, three frozensets
--              (TextSet/Frozen, a quotient of the lists that stand for a set) and the answers.
--   Event      wpa_ctrl/events.py: the parent `parse_event`, Split `_split_params`, Params
--              `parse_params`, View the typed views, those of wpa_ctrl/dpp.py included,
--              Names the table of event names.
--   Dpp        wpa_ctrl/dpp.py: Params is `format_params` and `dpp_hex`, Channel `dpp_channel`,
--              Configurator `dpp_configurator_params`. Channel/Classes has the channels of the
--              operating classes, and Channel/Table what the code accepts of the 5 MHz raster.
--   Replies    wpa_ctrl/replies.py: Parse is `parse_variables` and `parse_table`, Fields the class
--              `_Variables`, Rows, Signal, Bss and Address the reply types.
--   Transport  wpa_ctrl/transport.py: World is the operating system (a clock, the inbox with arrival
--              times, the files, which calls succeed), Exec the actions that may raise and keep what
--              was done before, Socket the class `CtrlTransport`.
--   Client     wpa_ctrl/client.py: State is the object, Request `request` to `ping`, Events `pending`
--              and `next_event`, Commands the rest of the commands and the walks. Stream follows the
--              events through any sequence of these, from the daemon to the caller.
--   Compat     wpa_ctrl/compat.py: the parent is the table of shared clients, `execute_command` and
--              `close_all`; Spelling, Judging, Executing, Answering and Files hold its theorems.
--   Discovery  wpa_ctrl/discovery.py: the interfaces, over what the file system answers; Asking and
--              Leaving are about the session with the global socket.
--   Tests      runs on concrete values.
--
-- Loops. `request` and `next_event` run on a turn for each datagram of the inbox and one more: a
-- turn that goes on takes a datagram off, so the turns are enough, and the properties on finding
-- the reply and the event say that they are. `printf_decode` and `_scan_key_mgmt` run on the length
-- of their text. `request`, `next_event`, `printf_decode` and `iter_networks` out of turns with work
-- left are `err endless`, where the source would go on for ever, so that a theorem on what is
-- answered or raised shows that they end. A
-- generator is modelled by a consumer that takes at most so many items, and that
-- asks for nothing more once it has them. `iter_networks` reads a page at a time: the number of
-- networks that are wanted is turns enough (Client/Commands/Pages/Enough), since a page that brings
-- no network ends the walk. Client/Commands/Walks/Pattern has the pattern that the loops of
-- `iter_bss`, `iter_stations` and `iter_p2p_peers` share, for the lemmas about all three.
--
-- The system. Whether it creates a socket, has the abstract namespace, binds, connects, sends,
-- selects and unlinks is a flag of the world that stays the same over a run; an unlink that fails
-- leaves the file. A path is encoded as on Linux, in UTF-8 with surrogateescape: a text with another
-- surrogate raises UnicodeEncodeError, and `os.unlink` of a text with a zero ValueError. A socket
-- that is not created is an OSError, `err os_error`, that no handler of WpaCtrlError catches.
--
-- Time is in whole milliseconds, and passes only while a call waits. What the daemon sends is a
-- function of the commands sent, with a delay for each datagram. `recv` truncates a datagram to its
-- buffer.
--
-- The clients of wpa_ctrl/compat.py share the clock and the files, which a call takes in and hands
-- back; each has a side of the system of its own for its socket. `str.upper` is the full mapping of
-- Unicode 14. The number that `fileno` answers is a parameter.
--
-- Not modelled: logging, messages of exceptions, and the re-exports of wpa_ctrl/__init__.py.
pub mod Base
pub mod Result
pub mod Text
pub mod Ssid
pub mod Dict
pub mod TextSet
pub mod Security
pub mod Event
pub mod Dpp
pub mod Replies
pub mod Transport
pub mod Client
pub mod Compat
pub mod Discovery
mod Tests
