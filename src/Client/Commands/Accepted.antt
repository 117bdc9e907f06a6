-- ===== src/Client/Commands/Accepted.antt =====
-- When `command` and `try_command` of wpa_ctrl/client.py succeed.
use wpa_ctrl_py.Base.{ℕ, ◌≡◌, refl, inl, inr, Bool, true, false, Option, if◌then◌else◌, Bool-cases}
use wpa_ctrl_py.Result.{Result, Error, ok, err, command_failed}
use wpa_ctrl_py.Text.{Text, text_eq, strip}
use wpa_ctrl_py.Dict.Laws.{text_eq_iff}
use wpa_ctrl_py.Transport.Exec.{outcome, after, continue, pure, raise}
use wpa_ctrl_py.Client.State.{Client}
use wpa_ctrl_py.Client.Request.{request, command, try_command, reply_ok}

-- The outcomes of `command` and `try_command`, by the outcome of the request.
pub data Judged (text : Text) : Result Text → Result (Unit {0}) → Result Bool → Type 0 where
  accepted : (reply : Text) → strip reply ≡ reply_ok → Judged text (ok reply) (ok tt) (ok true)
  refused :
      (reply : Text)
      → text_eq (strip reply) reply_ok ≡ false
      → Judged text (ok reply) (err (command_failed text reply)) (ok false)
  raised : (e : Error) → Judged text (err e) (err e) (err e)

-- `command` returns exactly where the reply without the white space around it is OK, and else raises
-- WpaCtrlCommandFailed with the command and the reply; `try_command` tells the two cases apart by
-- its answer. Both raise what the request raises, and leave the connection as the request leaves it.
pub command-Judged :
    (text : Text) (timeout : Option ℕ) (c : Client)
    → Judged text
        (outcome (request text timeout) c)
        (outcome (command text timeout) c)
        (outcome (try_command text timeout) c)
      × (after (command text timeout) c ≡ after (request text timeout) c)
      × (after (try_command text timeout) c ≡ after (request text timeout) c)
unfolding command try_command
command-Judged text timeout c = go (request text timeout c).0 (request text timeout c).1
  where
    go :
        (r : Result Text) (c' : Client)
        → (let run =
              continue r
                (λ reply.
                  if text_eq (strip reply) reply_ok
                  then pure tt
                  else raise (command_failed text reply))
                c' in
            let run' = continue r (λ reply. pure (text_eq (strip reply) reply_ok)) c' in
            Judged text r run.0 run'.0 × (run.1 ≡ c') × (run'.1 ≡ c'))
    go (err e) c' = (raised e, refl, refl)
    go (ok reply) c' = elim (Bool-cases (text_eq (strip reply) reply_ok)) [
      | inl same ↦
          rw same (accepted reply ((text_eq_iff (strip reply) reply_ok).0 same), refl, refl)
      | inr other ↦ rw other (refused reply other, refl, refl)
    ]
