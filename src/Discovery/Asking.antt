-- ===== src/Discovery/Asking.antt =====
-- Asking the global socket, in wpa_ctrl/discovery.py: what becomes of the daemon's answer.
use wpa_ctrl_py.Base.{◌≡◌, refl, List, []}
use wpa_ctrl_py.Result.{Result, Error, ok, err}
use wpa_ctrl_py.Text.{Text, codes, splitlines}
use wpa_ctrl_py.Transport.Exec.{Exec, after}
use wpa_ctrl_py.Transport.Socket.{open_link}
use wpa_ctrl_py.Client.State.{Client, open_client, close_client}
use wpa_ctrl_py.Client.Commands.Wording.{nonempty}
use wpa_ctrl_py.Discovery.{session}

abbrev pub question : Text
question = codes "INTERFACES"

-- The names in the reply; none where there is no reply.
abbrev pub reported : Result Text → List Text
reported (ok reply) = nonempty (splitlines reply)
reported (err e) = []

abbrev asked : Result Text → Result (List Text)
asked (ok reply) = ok (nonempty (splitlines reply))
asked (err e) = err e

pub session-opened :
    {A : Type 0} (body : Exec Client A) (c : Client)
    → (open_link c.link).0 ≡ ok tt
    → session body c ≡ (let (r, c') = body (after open_client c) in (r, after close_client c'))
session-opened body c h = rw (session, h) refl

pub session-refused :
    {A : Type 0} (body : Exec Client A) (c : Client) (e : Error)
    → (open_link c.link).0 ≡ err e
    → session body c ≡ (err e, after open_client c)
session-refused body c e h = rw (session, h) refl
