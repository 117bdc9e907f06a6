-- ===== src/Discovery.antt =====
-- wpa_ctrl/discovery.py: the interfaces that have a control socket, and those that the kernel has.
pub mod Sorting
pub mod Found
pub mod Asking
pub mod Leaving
use wpa_ctrl_py.Base.{
  ℕ, Bool, true, false, not, ◌&&◌, ◌||◌, List, [], ◌∷◌, Option, none, some, if◌then◌else◌, is_empty,
}
use wpa_ctrl_py.Result.{
  Result, Error, ok, err, value_error, unicode_error, os_error, endless, connection_error,
  timeout_error, command_failed,
}
use wpa_ctrl_py.Text.{Text, codes}
use wpa_ctrl_py.Transport.World.{World}
use wpa_ctrl_py.Transport.Exec.{Exec, ◌>>=◌}
use wpa_ctrl_py.Transport.Socket.{path_join, default_ctrl_dir}
use wpa_ctrl_py.Client.State.{Client, new_client, enter_client, exit_client}
use wpa_ctrl_py.Client.Commands.Station.{interfaces}
use wpa_ctrl_py.Discovery.Sorting.{sort}

-- What the file system answers: `os.listdir`, `stat.S_ISSOCK(os.stat(path).st_mode)`,
-- `os.path.lexists` and `os.path.isdir`; `none` is an OSError.
pub record Files : Type 0 where
  pub list : Text → Option (List Text)
  pub is_socket : Text → Option Bool
  pub exists : Text → Bool
  pub is_dir : Text → Bool

abbrev pub sys_class_net_dir : Text
sys_class_net_dir = codes "/sys/class/net"

abbrev pub phy80211 : Text
phy80211 = codes "phy80211"

abbrev pub yes_if : Option Bool → Bool
yes_if none = false
yes_if (some answer) = answer

unfoldable pub keep : (Text → Bool) → List Text → List Text
keep test [] = []
keep test (name ∷ names) = let rest = keep test names in if test name then name ∷ rest else rest

-- The entries of a directory; none where there is no directory.
abbrev pub entries : Option (List Text) → List Text
entries none = []
entries (some names) = names

unfoldable pub control_sockets : Files → Text → List Text
control_sockets files ctrl_dir = sort (
    keep (λ entry. yes_if (files.is_socket (path_join ctrl_dir entry)))
      (entries (files.list ctrl_dir)))

-- `os.path.join` of three parts joins the first two, and then the third.
unfoldable pub is_wireless : Files → Text → Text → Bool
is_wireless files sys_class_net ifname =
    files.exists (path_join (path_join sys_class_net ifname) phy80211)

unfoldable pub wireless_interfaces : Files → Text → List Text
wireless_interfaces files sys_class_net =
    sort (keep (is_wireless files sys_class_net) (entries (files.list sys_class_net)))

abbrev pub have_sysfs : Files → Text → Bool
have_sysfs files sys_class_net = files.is_dir sys_class_net

-- `_interface_exists`.
unfoldable pub interface_exists : Files → Text → Text → Bool
interface_exists files sys_class_net ifname = files.is_dir (path_join sys_class_net ifname)

-- The handler of WpaCtrlError.
abbrev pub names_or_none : Result (List Text) → Result (List Text)
names_or_none (ok names) = ok names
names_or_none (err value_error) = err value_error
names_or_none (err unicode_error) = err unicode_error
names_or_none (err os_error) = err os_error
names_or_none (err endless) = err endless
names_or_none (err e) = ok []

-- The `with` statement: the connection is closed behind its body, whatever the body did; where it
-- does not open, the body does not run.
abbrev pub session : {A : Type 0} → Exec Client A → Exec Client A
session body c =
    let (opened, c') = enter_client c in
    let (r, c'') = body c' in elim opened [ ok u ↦ (r, (exit_client c'').1) | err e ↦ (err e, c') ]

-- `_interfaces_from_global`, with the client that it makes.
unfoldable pub interfaces_from_global : Client → Result (List Text)
interfaces_from_global control = names_or_none (session interfaces control).0

-- Which of the names `find_interfaces` keeps.
abbrev pub worth : Files → Text → Bool → Text → Bool
worth files sys_class_net wireless_only name =
    interface_exists files sys_class_net name
    && (not wireless_only || is_wireless files sys_class_net name)

-- The names that the daemon or the directory gives.
abbrev pub candidates : Files → Text → List Text → List Text
candidates files ctrl_dir from_global =
    if is_empty from_global then control_sockets files ctrl_dir else from_global

-- `find_interfaces` once the global socket, if there is one, has been asked.
unfoldable pub find_among : Files → Text → Bool → Text → List Text → List Text
find_among files ctrl_dir wireless_only sys_class_net from_global =
    let names = candidates files ctrl_dir from_global in
    sort (
      if have_sysfs files sys_class_net
      then keep (worth files sys_class_net wireless_only) names
      else names)

-- The client of the global socket is made for it, where the path is given and not empty.
unfoldable pub find_interfaces : Files → Text → Option Client → Bool → Text → Result (List Text)
find_interfaces files ctrl_dir control wireless_only sys_class_net =
    let find = find_among files ctrl_dir wireless_only sys_class_net in
    elim control [
      | none ↦ ok (find [])
      | some c ↦ elim (interfaces_from_global c) [ ok names ↦ ok (find names) | err e ↦ err e ]
    ]
