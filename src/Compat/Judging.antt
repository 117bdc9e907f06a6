-- ===== src/Compat/Judging.antt =====
-- What `execute_command` of wpa_ctrl/compat.py makes of a reply, beside `command` of
-- wpa_ctrl/client.py on the same client.
use wpa_ctrl_py.Base.{
  ℕ, ◌==◌, ◌≢◌, ◌≡◌, refl, ap, ◌∙◌, inl, inr, Bool, true, false, ◌||◌, [], ◌∷◌, Option, none, some,
  arith, if◌then◌else◌, Bool-cases,
}
use wpa_ctrl_py.Result.{
  is_wpa_error, Result, Error, ok, err, value_error, unicode_error, os_error, endless,
  connection_error, timeout_error, command_failed,
}
use wpa_ctrl_py.Text.{Text, text_eq, starts_with, strip, rstrip, is_space}
use wpa_ctrl_py.Text.Stripping.{strip-rstrip}
use wpa_ctrl_py.Dict.Laws.{text_eq_iff}
use wpa_ctrl_py.Event.{is_newline}
use wpa_ctrl_py.Compat.{judge_output, judge_reply, reply_fail, reply_unknown}
use wpa_ctrl_py.Client.Request.{reply_ok}

-- The output is a refusal: FAIL and its friends, or UNKNOWN COMMAND.
abbrev pub is_refusal : Text → Bool
is_refusal output = starts_with reply_fail output || starts_with reply_unknown output

newline-space : (c : ℕ) → is_newline c ≡ true → is_space c ≡ true
unfolding is_space
newline-space c h = ground arith

refusal-head :
    (c : ℕ) (rest : Text) → is_refusal (c ∷ rest) ≡ true → (c == b'F' || c == b'U') ≡ true
unfolding starts_with
refusal-head c rest h = ground arith

head-ne-ok :
    (c : ℕ) (rest : Text)
    → (c == b'F' || c == b'U') ≡ true
    → text_eq (rstrip is_space (c ∷ rest)) reply_ok ≡ false
unfolding rstrip text_eq
head-ne-ok c rest h = ground arith

head-solid : (c : ℕ) → (c == b'F' || c == b'U') ≡ true → is_space c ≡ false
unfolding is_space
head-solid c h = ground arith

-- A refusal is not OK, whatever white space stands around it.
refusal-ne-ok :
    (reply : Text)
    → is_refusal (rstrip is_newline reply) ≡ true
    → text_eq (strip reply) reply_ok ≡ false
unfolding starts_with
refusal-ne-ok reply h = go (rstrip is_newline reply) refl h
  where
    go :
        (output : Text)
        → rstrip is_newline reply ≡ output
        → is_refusal output ≡ true
        → text_eq (strip reply) reply_ok ≡ false
    go [] e h = cc
    go (c ∷ rest) e h =
        let first = refusal-head c rest h in
        ap (λ (t : Text). text_eq t reply_ok)
          (strip-rstrip is_newline newline-space reply rest c e (head-solid c first))
        ∙ head-ne-ok c rest first

-- OK is OK with and without the white space around it.
ok-ok : (reply : Text) → rstrip is_newline reply ≡ reply_ok → text_eq (strip reply) reply_ok ≡ true
unfolding rstrip is_space text_eq
ok-ok reply h =
    ap (λ (t : Text). text_eq t reply_ok)
      (strip-rstrip is_newline newline-space reply (b'K' ∷ []) b'O' h refl)

-- What `execute_command` and `command` answer, by the outcome of the request that both make.
pub data Agree (text : Text)
    : Result Text → Result (Bool × Option Text) → Result (Unit {0}) → Type 0 where
  accepted :
      (reply : Text)
      → rstrip is_newline reply ≡ reply_ok
      → Agree text (ok reply) (ok (true, none)) (ok tt)
  padded :
      (reply : Text)
      → rstrip is_newline reply ≢ reply_ok
      → strip reply ≡ reply_ok
      → Agree text (ok reply) (ok (true, some (rstrip is_newline reply))) (ok tt)
  refused :
      (reply : Text)
      → is_refusal (rstrip is_newline reply) ≡ true
      → Agree text (ok reply) (ok (false, none)) (err (command_failed text reply))
  informed :
      (reply : Text)
      → is_refusal (rstrip is_newline reply) ≡ false
      → strip reply ≢ reply_ok
      → Agree text
          (ok reply)
          (ok (true, some (rstrip is_newline reply)))
          (err (command_failed text reply))
  unheard : (e : Error) → is_wpa_error e ≡ true → Agree text (err e) (ok (false, none)) (err e)
  unsent : (e : Error) → is_wpa_error e ≡ false → Agree text (err e) (err e) (err e)

-- `command`, by the reply.
abbrev pub commanded : Text → Text → Result (Unit {0})
commanded text reply =
    if text_eq (strip reply) reply_ok then ok tt else err (command_failed text reply)

ne-ok : (t : Text) → text_eq t reply_ok ≡ false → t ≢ reply_ok
ne-ok t h e = cc ((text_eq_iff t reply_ok).1 e)

judge-Agree :
    (text reply : Text)
    → Agree text (ok reply) (ok (judge_output (rstrip is_newline reply))) (commanded text reply)
unfolding judge_output
judge-Agree text reply = elim (Bool-cases (is_refusal (rstrip is_newline reply))) [
  | inl no_way ↦ rw (no_way, refusal-ne-ok reply no_way) (refused reply no_way)
  | inr fine ↦ rw fine (elim (Bool-cases (text_eq (rstrip is_newline reply) reply_ok)) [
    | inl same ↦
        let e = (text_eq_iff (rstrip is_newline reply) reply_ok).0 same in
        rw (same, ok-ok reply e) (accepted reply e)
    | inr other ↦ rw other (elim (Bool-cases (text_eq (strip reply) reply_ok)) [
      | inl same ↦ rw same (
          padded reply (ne-ok (rstrip is_newline reply) other)
            ((text_eq_iff (strip reply) reply_ok).0 same))
      | inr differs ↦ rw differs (informed reply fine (ne-ok (strip reply) differs))
    ])
  ])
]

-- The request decides both.
pub reply-Agree :
    (text : Text) (r : Result Text)
    → Agree text r (judge_reply r) (elim r [ ok reply ↦ commanded text reply | err e ↦ err e ])
unfolding judge_reply
reply-Agree text (ok reply) = judge-Agree text reply
reply-Agree text (err value_error) = unsent value_error refl
reply-Agree text (err unicode_error) = unsent unicode_error refl
reply-Agree text (err os_error) = unsent os_error refl
reply-Agree text (err endless) = unsent endless refl
reply-Agree text (err connection_error) = unheard connection_error refl
reply-Agree text (err timeout_error) = unheard timeout_error refl
reply-Agree text (err (command_failed told reply)) = unheard (command_failed told reply) refl
