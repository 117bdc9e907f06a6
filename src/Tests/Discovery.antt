-- ===== src/Tests/Discovery.antt =====
-- Interfaces of wpa_ctrl/discovery.py.
use wpa_ctrl_py.Base.{
  none, ◌≡◌, refl, true, false, not, ◌&&◌, ◌||◌, [], ◌∷◌, some, is_empty, if◌then◌else◌,
}
use wpa_ctrl_py.Text.{Text, codes, text_eq, starts_with, join, is_line_end, rstrip, splitlines}
use wpa_ctrl_py.TextSet.{member}
use wpa_ctrl_py.Transport.Socket.{
  path_join, open_link, open_socket, send, require_socket, receive, close_link, address_of,
}
use wpa_ctrl_py.Discovery.Sorting.{sort, insert, text_le, IsSorted}
use wpa_ctrl_py.Discovery.{
  Files, keep, entries, yes_if, control_sockets, is_wireless, interface_exists, have_sysfs,
  find_among, find_interfaces, interfaces_from_global, session,
}
use wpa_ctrl_py.Result.{ok}
use wpa_ctrl_py.Text.Utf8.{encode, encode_char, decode_replace}
use wpa_ctrl_py.Event.{is_event}
use wpa_ctrl_py.Transport.World.{World, datagram, without, bind_file, send_data, recv}
use wpa_ctrl_py.Transport.Exec.{after}
use wpa_ctrl_py.Transport.Socket.{connected, default_ctrl_dir, default_client_dir, default_timeout}
use wpa_ctrl_py.Transport.Socket.{is_encodable, path_error}
use wpa_ctrl_py.Transport.Socket.Tidy.{HasFile}
use wpa_ctrl_py.Client.State.{Client, new_client, close_client}
use wpa_ctrl_py.Client.Request.{request, request_loop}
use wpa_ctrl_py.Client.Commands.Station.{interfaces}
use wpa_ctrl_py.Discovery.Leaving.{session-interfaces}
use wpa_ctrl_py.Discovery.Found.{member-find_among}

-- Three entries, the last of which is a plain file.
abbrev files : Files
files = record {
  list = λ path. some (codes "w1" ∷ codes "e0" ∷ codes "f" ∷ []);
  is_socket = λ path. some (not (text_eq path (codes "/c/f")));
  exists = λ path. text_eq path (codes "/s/w1/phy80211");
  is_dir = λ path. true;
}

found_all : find_among files (codes "/c") false (codes "/s") [] ≡ codes "e0" ∷ codes "w1" ∷ []
unfolding find_among control_sockets keep sort insert text_le path_join starts_with text_eq
    interface_exists
found_all = refl

found_wireless : find_among files (codes "/c") true (codes "/s") [] ≡ codes "w1" ∷ []
unfolding find_among control_sockets keep sort insert text_le path_join starts_with text_eq
    interface_exists is_wireless
found_wireless = refl

member-find_among_example :
    (let found = find_among files (codes "/c") true (codes "/s") [] in
      let is_control_socket =
        member (codes "w1") (entries (files.list (codes "/c")))
        && yes_if (files.is_socket (path_join (codes "/c") (codes "w1"))) in
      let known =
        interface_exists files (codes "/s") (codes "w1")
        && (not true || is_wireless files (codes "/s") (codes "w1")) in
      IsSorted found
      × member (codes "w1") found ≡ (
          (if is_empty {A = Text} [] then is_control_socket else member (codes "w1") [])
          && (not (have_sysfs files (codes "/s")) || known)))
member-find_among_example = member-find_among files (codes "/c") true (codes "/s") [] (codes "w1")

-- A daemon with a global socket, which has one interface.
abbrev world : World
world = record {
  clock = 0;
  inbox = [];
  sent = [];
  daemon = λ sent. record { at = 1; packet = datagram (codes "w1\n") } ∷ [];
  files = codes "/tmp/x" ∷ [];
  has_abstract = false;
  can_create = true;
  can_unlink = true;
  can_bind = true;
  can_connect = true;
  can_send = true;
  can_select = true;
}

abbrev control : Client
control = record {
  link = record {
    transport = record {
      path = codes "/g";
      client_dir = default_client_dir;
      timeout = default_timeout;
      name = codes "c";
      socket = none;
      client_path = none;
    };
    world = world;
  };
  timeout = default_timeout;
  attached = false;
  events = [];
}

control-new :
    new_client none default_ctrl_dir
      (some (codes "/g"))
      default_client_dir
      default_timeout
      (codes "c")
      world
    ≡ ok control
unfolding new_client
control-new = refl

-- The daemon is asked, and its names are preferred to those of the directory.
found_global :
    find_interfaces files (codes "/c") (some control) false (codes "/s") ≡ ok (codes "w1" ∷ [])
unfolding find_interfaces interfaces_from_global find_among open_link open_socket bind_file
    path_join starts_with member without text_eq request send require_socket encode join send_data
    request_loop receive recv close_client close_link insert sort keep text_le interface_exists
    is_event encode_char decode_replace is_line_end rstrip splitlines address_of is_encodable
    path_error
found_global = refl

control-path : is_encodable (address_of control.link.transport.path) ≡ true
unfolding is_encodable address_of starts_with
control-path = refl

session-interfaces_example :
    (connected (after (session interfaces) control).link.transport ≡ false)
    × ((file : Text)
        → HasFile (after (session interfaces) control).link file
        → HasFile control.link file)
session-interfaces_example =
    session-interfaces (codes "/g") (codes "c") world control control-new control-path refl
