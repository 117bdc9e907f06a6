-- ===== src/Tests/Compat.antt =====
-- Commands in the manner of wpa_cli, over a daemon that answers OK and cannot use the abstract
-- namespace.
use wpa_ctrl_py.Base.{ℕ, ◌≡◌, refl, false, true, [], ◌∷◌, none, arith}
use wpa_ctrl_py.Result.{ok, err, os_error}
use wpa_ctrl_py.Text.{Text, Bytes, codes, text_eq, starts_with, partition, join, rstrip}
use wpa_ctrl_py.Text.Utf8.{encode, encode_char, decode_replace}
use wpa_ctrl_py.Text.Upper.{upper, upper_char}
use wpa_ctrl_py.Text.Upper.Ascii.{ascii_upper}
use wpa_ctrl_py.TextSet.{member}
use wpa_ctrl_py.Event.{is_event}
use wpa_ctrl_py.Transport.World.{World, datagram, without, bind_file, send_data, recv}
use wpa_ctrl_py.Transport.Exec.{outcome, after}
use wpa_ctrl_py.Client.Request.Raising.{Opens}
use wpa_ctrl_py.Transport.Socket.{
  is_encodable, path_error, path_join, address_of, open_link, open_socket, send, require_socket,
  receive,
}
use wpa_ctrl_py.Client.State.{Client, new_client}
use wpa_ctrl_py.Client.Request.{request, request_loop, command}
use wpa_ctrl_py.Compat.{
  Shared, find_client, put_client, make_client, get_client, call_client, close_all, canonical,
  judge_output, judge_reply, request_on, execute_command, at_present, write_back,
}
use wpa_ctrl_py.Compat.Spelling.{RunSends, execute_command-spelled}
use wpa_ctrl_py.Compat.Judging.{Agree}
use wpa_ctrl_py.Compat.Executing.{fresh_client, remembered, execute_command-Agree}
use wpa_ctrl_py.Compat.Answering.{Answers, execute_command-Answers}
use wpa_ctrl_py.Compat.Files.{started, executed, Exists, close_all-Session}

abbrev answering : Bytes → ℕ → World
answering reply n = record {
  clock = 0;
  inbox = [];
  sent = [];
  daemon = λ sent. record { at = 1; packet = datagram reply } ∷ [];
  files = [];
  has_abstract = false;
  can_create = true;
  can_unlink = true;
  can_bind = true;
  can_connect = true;
  can_send = true;
  can_select = true;
}

abbrev shared : Bytes → Shared
shared reply = record {
  clients = [];
  clock = 7;
  files = codes "/tmp/x" ∷ [];
  made = 0;
  name_of = λ n. codes "c";
  world_of = answering reply;
}

abbrev wlan0 : Text
wlan0 = codes "wlan0"

abbrev accepting : Shared
accepting = shared (codes "OK\n")

abbrev used : Shared
used = after (execute_command (codes "scan" ∷ []) wlan0) accepting

-- A command that is accepted, one that is refused, and the file of a client that is open.
runs :
    (outcome (execute_command (codes "scan" ∷ []) wlan0) accepting ≡ ok (true, none))
    × (outcome (execute_command (codes "sacn" ∷ []) wlan0) (shared (codes "UNKNOWN COMMAND\n"))
        ≡ ok (false, none))
    × (used.files ≡ codes "/tmp/c" ∷ codes "/tmp/x" ∷ [])
unfolding execute_command request_on get_client find_client make_client new_client put_client
    call_client canonical upper upper_char partition join path_join request request_loop open_link
    open_socket without bind_file member send require_socket encode encode_char send_data receive
    recv decode_replace is_event starts_with rstrip judge_reply judge_output text_eq address_of
    is_encodable path_error
runs = (refl, refl, refl)

canonical-mixed :
    canonical (codes "set_network" ∷ codes "0" ∷ codes "ssid" ∷ codes "\"My Net\"" ∷ [])
    ≡ codes "SET_NETWORK 0 ssid \"My Net\""
unfolding canonical upper upper_char partition join
canonical-mixed = refl

upper-special : upper (codes "straße") ≡ codes "STRASSE"
unfolding upper upper_char
upper-special = refl

execute_command-Agree_example :
    (let args = codes "scan" ∷ [] in
      (c : Client) × (s' : Shared) × (get_client wlan0 accepting ≡ (ok c, s'))
      × Agree
          (canonical args)
          (outcome (request (canonical args) none) (at_present s' c))
          (outcome (execute_command args wlan0) accepting)
          (outcome (command (canonical args) none) (at_present s' c))
      × (after (execute_command args wlan0) accepting
          ≡ write_back wlan0 (after (request (canonical args) none) (at_present s' c)) s'))
execute_command-Agree_example = execute_command-Agree (codes "scan" ∷ []) wlan0 accepting

execute_command-spelled_example :
    (let args = codes "3" ∷ [] in
      RunSends
        (join (codes " ") (ascii_upper (codes "Save") ∷ args))
        wlan0
        accepting
        (execute_command (codes "Save" ∷ args) wlan0 accepting)
      × (execute_command (codes "Save" ∷ args) wlan0 accepting
          ≡ execute_command (codes "SAVE" ∷ args) wlan0 accepting))
execute_command-spelled_example =
    execute_command-spelled (codes "Save") (codes "SAVE") (codes "3" ∷ []) wlan0 accepting
      (
        (omega arith, (omega arith, (omega arith, (omega arith, tt)))),
        (omega arith, (omega arith, (omega arith, (omega arith, tt)))),
      )
      (
        (omega arith, (omega arith, (omega arith, (omega arith, tt)))),
        (omega arith, (omega arith, (omega arith, (omega arith, tt)))),
      )
      refl

scan-encoded : encode (canonical (codes "scan" ∷ [])) ≡ ok (codes "SCAN")
unfolding encode encode_char canonical upper upper_char partition join
scan-encoded = refl

abbrev wlan0_client : Client
wlan0_client = fresh_client wlan0 (shared (codes "FAIL\n"))

wlan0_client-got :
    get_client wlan0 (shared (codes "FAIL\n"))
    ≡ (ok wlan0_client, remembered wlan0 (shared (codes "FAIL\n")))
unfolding get_client find_client make_client new_client put_client
wlan0_client-got = refl

wlan0_client-Opens : Opens wlan0_client.link
unfolding is_encodable path_join starts_with path_error address_of
wlan0_client-Opens = record { created = refl; spelled = refl; own = refl }

execute_command-Answers_example :
    Answers (outcome (execute_command (codes "scan" ∷ []) wlan0) (shared (codes "FAIL\n")))
execute_command-Answers_example =
    execute_command-Answers (codes "scan" ∷ []) wlan0 (shared (codes "FAIL\n"))
      (remembered wlan0 (shared (codes "FAIL\n"))) wlan0_client (codes "SCAN") wlan0_client-got
      wlan0_client-Opens scan-encoded

-- The operating system gives no socket: the OSError gets past every handler.
no_socket :
    outcome (execute_command (codes "scan" ∷ []) wlan0) (record (shared (codes "FAIL\n")) {
      world_of = λ n. record (answering (codes "FAIL\n") n) { can_create = false };
    })
    ≡ err os_error
unfolding execute_command request_on get_client find_client make_client new_client put_client
    call_client canonical upper upper_char partition join path_join request open_link open_socket
    starts_with judge_reply is_encodable address_of path_error
no_socket = refl

close_all-Session_example :
    ((close_all used).clients ≡ [])
    × ((path : Text) → Exists (close_all used) path → Exists accepting path)
close_all-Session_example =
    close_all-Session accepting used (wlan0 ∷ []) refl (λ n. refl) (wlan0_client-Opens.spelled, tt)
      (executed (codes "scan" ∷ []) wlan0 started)
