-- ===== src/Compat/Spelling.antt =====
-- The case of a command's verb in wpa_ctrl/compat.py.
use mathlib.Core.Path.{subst}
use wpa_ctrl_py.Base.{Bool, Option, none, ◌≡◌, refl, ap, sym, ◌∙◌, List, [], ◌∷◌, All, append-nil}
use wpa_ctrl_py.Text.{Text, codes, join}
use wpa_ctrl_py.Text.Laws.{Lacks, partition-append, partition-Lacks}
use wpa_ctrl_py.Text.Utf8.Ascii.{IsAscii}
use wpa_ctrl_py.Text.Upper.Ascii.{ascii_upper, upper_ascii}
use wpa_ctrl_py.Result.{Result, ok}
use wpa_ctrl_py.Client.State.{Client}
use wpa_ctrl_py.Client.Request.{request}
use wpa_ctrl_py.Client.Request.Once.{SendsOnce, request-SendsOnce}
use wpa_ctrl_py.Compat.Executing.{get_client-ok, execute_command-run}
use wpa_ctrl_py.Compat.{
  get_client, at_present, write_back, Shared, canonical, execute_command, request_on, judge_reply,
}

-- A verb of ASCII without a space.
abbrev pub IsVerb : Text → Type 0
IsVerb verb = All IsAscii verb × Lacks b' ' verb

canonical-ascii :
    (verb : Text) (args : List Text)
    → IsVerb verb
    → canonical (verb ∷ args) ≡ join (codes " ") (ascii_upper verb ∷ args)
unfolding canonical join
canonical-ascii verb [] (ascii, plain) =
    rw (partition-Lacks b' ' verb plain, upper_ascii verb ascii) (append-nil (ascii_upper verb))
canonical-ascii verb (arg ∷ args) (ascii, plain) =
    rw (partition-append b' ' verb (join (codes " ") (arg ∷ args)) plain, upper_ascii verb ascii)
      refl

execute_command-same :
    (args args' : List Text) (ifname : Text) (s : Shared)
    → canonical args ≡ canonical args'
    → execute_command args ifname s ≡ execute_command args' ifname s
unfolding execute_command
execute_command-same args args' ifname s alike =
    ap (λ (text : Text). let (reply, s') = request_on ifname text s in (judge_reply reply, s'))
      alike

-- A run of `execute_command` has sent this text once, on the client of the interface; or it has
-- sent nothing, and answers as for an exception of the request.
abbrev pub RunSends : Text → Text → Shared → Result (Bool × Option Text) × Shared → Type 0
RunSends text ifname s run =
    (c : Client) × (s' : Shared) × (get_client ifname s ≡ (ok c, s'))
    × (r : Result Text) × (d : Client) × (run ≡ (judge_reply r, write_back ifname d s'))
    × SendsOnce text (at_present s' c) (r, d)

execute_command-RunSends :
    (args : List Text) (ifname : Text) (s : Shared)
    → RunSends (canonical args) ifname s (execute_command args ifname s)
execute_command-RunSends args ifname s =
    let (c, s', got) = get_client-ok ifname s in
    let run = request (canonical args) none (at_present s' c) in
    (
      c,
      s',
      got,
      run.0,
      run.1,
      execute_command-run args ifname s s' c got,
      request-SendsOnce (canonical args) none (at_present s' c),
    )

-- A command whose verb is of ASCII and holds no space goes out once, with the letters of the verb in
-- upper case and everything behind it as it is, or nothing goes out and the answer is that for an
-- exception of the request; and two spellings of the verb that differ in the case of letters alone
-- run alike, in answer and in effect.
pub execute_command-spelled :
    (verb verb' : Text) (args : List Text) (ifname : Text) (s : Shared)
    → IsVerb verb
    → IsVerb verb'
    → ascii_upper verb ≡ ascii_upper verb'
    → RunSends
        (join (codes " ") (ascii_upper verb ∷ args))
        ifname
        s
        (execute_command (verb ∷ args) ifname s)
      × (execute_command (verb ∷ args) ifname s ≡ execute_command (verb' ∷ args) ifname s)
execute_command-spelled verb verb' args ifname s h h' same =
    let sent = canonical-ascii verb args h in
    let alike =
      sent
      ∙ ap (λ (v : Text). join (codes " ") (v ∷ args)) same
      ∙ sym (canonical-ascii verb' args h') in
    (
      subst (λ (text : Text). RunSends text ifname s (execute_command (verb ∷ args) ifname s)) sent
          (execute_command-RunSends (verb ∷ args) ifname s),
      execute_command-same (verb ∷ args) (verb' ∷ args) ifname s alike,
    )
