-- ===== src/Compat/Executing.antt =====
-- `execute_command` of wpa_ctrl/compat.py as a run of the shared client.
use mathlib.Core.Path.{subst}
use wpa_ctrl_py.Transport.Socket.{interface_path}
use wpa_ctrl_py.Base.{
  [], false, Bool-cases, ◌+◌, false, ◌≡◌, refl, sym, ap, inl, inr, List, Option, none, some, Bool,
  Option-cases, if◌then◌else◌,
}
use wpa_ctrl_py.Result.{Result, ok, err, command_failed}
use wpa_ctrl_py.Text.{Text, text_eq, strip}
use wpa_ctrl_py.Transport.Exec.{outcome, after, continue, pure, raise}
use wpa_ctrl_py.Client.State.{Client, new_client}
use wpa_ctrl_py.Client.Request.{request, command, reply_ok}
use wpa_ctrl_py.Compat.{
  default_timeout, default_client_dir, default_ctrl_dir, put_client, Shared, find_client,
  make_client, get_client, call_client, canonical, request_on, judge_reply, execute_command,
  at_present, write_back,
}
use wpa_ctrl_py.Compat.Judging.{Agree, reply-Agree, commanded}

-- The client of an interface that has none yet.
abbrev pub fresh_client : Text → Shared → Client
fresh_client ifname s = record {
  link = record {
    transport = record {
      path = interface_path ifname default_ctrl_dir;
      client_dir = default_client_dir;
      timeout = default_timeout;
      name = s.name_of s.made;
      socket = none;
      client_path = none;
    };
    world = s.world_of s.made;
  };
  timeout = default_timeout;
  attached = false;
  events = [];
}

abbrev pub remembered : Text → Shared → Shared
remembered ifname s = record s {
  clients = put_client ifname (fresh_client ifname s) s.clients;
  made = s.made + 1;
}

pub get_client-fresh :
    (ifname : Text) (s : Shared)
    → find_client ifname s.clients ≡ none
    → get_client ifname s ≡ (ok (fresh_client ifname s), remembered ifname s)
unfolding get_client make_client new_client
get_client-fresh ifname s new = rw (new, get_client) refl

pub get_client-found :
    (ifname : Text) (s : Shared) (c : Client)
    → find_client ifname s.clients ≡ some c
    → get_client ifname s ≡ (ok c, s)
unfolding get_client
get_client-found ifname s c old = rw (old, get_client) refl

-- There is a client, made on first use.
pub get_client-ok :
    (ifname : Text) (s : Shared) → (c : Client) × (s' : Shared) × (get_client ifname s ≡ (ok c, s'))
get_client-ok ifname s = elim (Option-cases (find_client ifname s.clients)) [
  | inl new ↦ (fresh_client ifname s, remembered ifname s, get_client-fresh ifname s new)
  | inr (c, old) ↦ (c, s, get_client-found ifname s c old)
]

pub execute_command-run :
    (args : List Text) (ifname : Text) (s s' : Shared) (c : Client)
    → get_client ifname s ≡ (ok c, s')
    → execute_command args ifname s ≡ (
        let (r, c') = request (canonical args) none (at_present s' c) in
        (judge_reply r, write_back ifname c' s'))
unfolding execute_command request_on call_client
execute_command-run args ifname s s' c got = rw got refl

command-request :
    (text : Text) (c : Client)
    → outcome (command text none) c
      ≡ elim (outcome (request text none) c) [ ok reply ↦ commanded text reply | err e ↦ err e ]
unfolding command
command-request text c = go (request text none c).0 (request text none c).1
  where
    go :
        (r : Result Text) (c' : Client)
        → (continue r
            (λ reply.
              if text_eq (strip reply) reply_ok then pure tt else raise (command_failed text reply))
            c').0
          ≡ elim r [ ok reply ↦ commanded text reply | err e ↦ err e ]
    go (ok reply) c' = elim (Bool-cases (text_eq (strip reply) reply_ok)) [
      | inl same ↦ rw same refl
      | inr other ↦ rw other refl
    ]
    go (err e) c' = refl

-- A command is one request on the shared client of the interface, which is made if there is none,
-- and leaves it as the request does. Its answer goes with what `command` says to the same request:
-- (True, None) for OK, (False, None) for a refusal and for every WpaCtrlError, which `command`
-- raises, and (True, output) for another reply, which `command` raises unless it is OK among white
-- space; any other exception of the request both let through.
pub execute_command-Agree :
    (args : List Text) (ifname : Text) (s : Shared)
    → (c : Client) × (s' : Shared) × (get_client ifname s ≡ (ok c, s'))
      × Agree
          (canonical args)
          (outcome (request (canonical args) none) (at_present s' c))
          (outcome (execute_command args ifname) s)
          (outcome (command (canonical args) none) (at_present s' c))
      × (after (execute_command args ifname) s
          ≡ write_back ifname (after (request (canonical args) none) (at_present s' c)) s')
execute_command-Agree args ifname s =
    let (c, s', got) = get_client-ok ifname s in
    let text = canonical args in
    let run = execute_command-run args ifname s s' c got in
    let r = outcome (request text none) (at_present s' c) in
    (
      c,
      s',
      got,
      subst (Agree text r (outcome (execute_command args ifname) s))
          (sym (command-request text (at_present s' c)))
          (subst
            (λ (answer : Result (Bool × Option Text)).
              Agree text r answer (elim r [ ok reply ↦ commanded text reply | err e ↦ err e ]))
            (sym (ap (λ (out : Result (Bool × Option Text) × Shared). out.0) run))
            (reply-Agree text r)),
      ap (λ (out : Result (Bool × Option Text) × Shared). out.1) run,
    )
