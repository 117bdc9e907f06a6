-- ===== src/Compat/Answering.antt =====
-- `execute_command` of wpa_ctrl/compat.py answers: no error that the daemon or the system makes
-- gets past it.
use wpa_ctrl_py.Base.{◌≡◌, refl, ap, ◌∙◌, Bool, false, List, Option, none}
use wpa_ctrl_py.Result.{
  Result, ok, err, value_error, unicode_error, os_error, endless, connection_error, timeout_error,
  command_failed,
}
use wpa_ctrl_py.Text.{Text, Bytes, rstrip}
use wpa_ctrl_py.Text.Utf8.{encode}
use wpa_ctrl_py.Event.{is_newline}
use wpa_ctrl_py.Transport.Exec.{outcome}
use wpa_ctrl_py.Client.Request.{request}
use wpa_ctrl_py.Client.Request.Raising.{Opens, Tame, request-Tame}
use wpa_ctrl_py.Client.State.{Client}
use wpa_ctrl_py.Compat.{
  get_client, Shared, canonical, judge_output, judge_reply, execute_command, at_present,
}
use wpa_ctrl_py.Compat.Executing.{execute_command-run}

abbrev pub Answers : Result (Bool × Option Text) → Type 0
Answers r = (answer : Bool × Option Text) × (r ≡ ok answer)

judge_reply-Answers : (r : Result Text) → Tame r → Answers (judge_reply r)
unfolding judge_reply
judge_reply-Answers (ok reply) tame = (judge_output (rstrip is_newline reply), refl)
judge_reply-Answers (err value_error) tame = cc
judge_reply-Answers (err unicode_error) tame = cc
judge_reply-Answers (err os_error) tame = cc
judge_reply-Answers (err endless) tame = cc
judge_reply-Answers (err connection_error) tame = ((false, none), refl)
judge_reply-Answers (err timeout_error) tame = ((false, none), refl)
judge_reply-Answers (err (command_failed text reply)) tame = ((false, none), refl)

-- Where the client of the interface can get a socket, and the paths and the text can be encoded, a
-- command is answered with a pair and never with an exception, whatever the daemon sends and
-- whichever other steps of opening, sending and receiving fail.
pub execute_command-Answers :
    (args : List Text) (ifname : Text) (s s' : Shared) (c : Client) (bytes : Bytes)
    → get_client ifname s ≡ (ok c, s')
    → Opens c.link
    → encode (canonical args) ≡ ok bytes
    → Answers (outcome (execute_command args ifname) s)
execute_command-Answers args ifname s s' c bytes got opens encoded =
    let run = execute_command-run args ifname s s' c got in
    let opens' : Opens (at_present s' c).link = record {
      created = opens.created;
      spelled = opens.spelled;
      own = opens.own;
    } in
    let (answer, answered) =
      judge_reply-Answers (outcome (request (canonical args) none) (at_present s' c))
        (request-Tame (canonical args) bytes none (at_present s' c) opens' encoded) in
    (answer, ap (λ (out : Result (Bool × Option Text) × Shared). out.0) run ∙ answered)
