-- ===== src/Event.antt =====
-- wpa_ctrl/events.py: unsolicited event messages and the parameters that they carry.
pub mod Split
pub mod Params
pub mod Message
pub mod View
pub mod Names
use wpa_ctrl_py.Base.{
  ℕ, Bool, true, false, List, [], ◌∷◌, ◌++◌, Option, none, some, ◌==◌, if◌then◌else◌,
}
use wpa_ctrl_py.Base.Int.{ℤ, pos}
use wpa_ctrl_py.Result.{Result, ok, err}
use wpa_ctrl_py.Text.{Text, codes, starts_with, partition, rstrip}
use wpa_ctrl_py.Text.Constants.{number}
use wpa_ctrl_py.Text.Number.{to_int}

-- `MSG_EXCESSIVE` to `MSG_ERROR`.
abbrev pub priorities : List (Text × ℕ)
priorities =
    number "MSG_EXCESSIVE" 0
    ∷ number "MSG_MSGDUMP" 1
    ∷ number "MSG_DEBUG" 2
    ∷ number "MSG_INFO" 3
    ∷ number "MSG_WARNING" 4
    ∷ number "MSG_ERROR" 5
    ∷ []

abbrev pub msg_info : ℤ
msg_info = pos 3

pub record Event : Type 0 where
  pub priority : ℤ
  pub name : Text
  pub params : Text
  pub raw : Text

abbrev pub ctrl_req : Text
ctrl_req = codes "CTRL-REQ-"

-- `Event.is_request`.
unfoldable pub is_request : Event → Bool
is_request e = starts_with ctrl_req e.name

-- What `parse_event` has read in front of the body.
pub record Prefix : Type 0 where
  pub priority : ℤ
  pub body : Text

-- `message.find(">")`, the slice `message[1:end]` and the handler of its ValueError.
numbered_prefix : Text → Result ℤ → Text → Prefix
numbered_prefix message (ok priority) body = record { priority = priority; body = body }
numbered_prefix message (err e) body = record { priority = msg_info; body = message }

unfoldable pub event_prefix : Text → Prefix
unfolding numbered_prefix
event_prefix [] = record { priority = msg_info; body = [] }
event_prefix (c ∷ message) =
    let p = partition b'>' message in
    if c == b'<'
    then (if p.found
        then numbered_prefix (c ∷ message) (to_int 10 p.before) p.after
        else record { priority = msg_info; body = c ∷ message })
    else record { priority = msg_info; body = c ∷ message }

abbrev pub is_newline : ℕ → Bool
is_newline c = c == b'\n'

unfoldable pub parse_event : Text → Event
unfolding event_prefix
parse_event message =
    let p = event_prefix message in
    let split = partition b' ' (rstrip is_newline p.body) in
    record { priority = p.priority; name = split.before; params = split.after; raw = message }

unfoldable pub is_event : Text → Bool
is_event message = starts_with (codes "<") message
