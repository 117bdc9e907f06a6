-- ===== src/Event/Message.antt =====
-- `parse_event` of wpa_ctrl/events.py on messages that carry a priority.
use wpa_ctrl_py.Base.{ℕ, ◌≡◌, refl, ap, ◌∙◌, true, false, [], ◌∷◌, ◌++◌, arith, All, All-append}
use wpa_ctrl_py.Base.Int.{pos}
use wpa_ctrl_py.Text.{starts_with, Text, Partition, partition, rstrip}
use wpa_ctrl_py.Text.Laws.{Lacks, Keeps, partition-append, rstrip-Keeps}
use wpa_ctrl_py.Text.Number.{decimal}
use wpa_ctrl_py.Text.Number.RoundTrip.{IsDigit, decimal-IsDigit, to_int-decimal}
use wpa_ctrl_py.Event.{Event, Prefix, event_prefix, parse_event, is_event, is_newline}

-- The body of a message: a name, and its parameters behind a space.
abbrev pub body : Text → Text → Text
body name params = name ++ b' ' ∷ params

abbrev pub message : ℕ → Text → Text
message priority body = b'<' ∷ (decimal priority ++ b'>' ∷ body)

digits-Lacks : (text : Text) → All IsDigit text → Lacks b'>' text
digits-Lacks [] h = tt
digits-Lacks (c ∷ text) h = (ground arith, digits-Lacks text h.1)

event_prefix-message :
    (priority : ℕ) (text : Text)
    → event_prefix (message priority text) ≡ record { priority = pos priority; body = text }
unfolding event_prefix
event_prefix-message priority text =
    rw
      (
        partition-append b'>' (decimal priority) text
            (digits-Lacks (decimal priority) (decimal-IsDigit priority)),
        to_int-decimal priority,
      )
      refl

message-is_event : (priority : ℕ) (text : Text) → is_event (message priority text) ≡ true
unfolding is_event
message-is_event priority text = unfold starts_with in refl

abbrev event_from : Text → ℕ → Partition → Event
event_from text priority split = record {
  priority = pos priority;
  name = split.before;
  params = split.after;
  raw = text;
}

parse_event-prefix :
    (text : Text) (p : Prefix)
    → event_prefix text ≡ p
    → parse_event text ≡ (
        let split = partition b' ' (rstrip is_newline p.body) in
        record { priority = p.priority; name = split.before; params = split.after; raw = text })
unfolding parse_event
parse_event-prefix text p e =
    ap
      (λ (q : Prefix).
        let split = partition b' ' (rstrip is_newline q.body) in
        let e : Event = record {
          priority = q.priority;
          name = split.before;
          params = split.after;
          raw = text;
        } in
        e)
      e

-- A message with a priority, a name without spaces and parameters, none of them holding a newline,
-- is an event, and reading it gives back the priority, the name and the parameters, which may hold
-- more spaces.
pub parse_event-message :
    (priority : ℕ) (name params : Text)
    → Lacks b' ' name
    → Keeps is_newline name
    → Keeps is_newline params
    → (let text = message priority (body name params) in
        (is_event text ≡ true)
        × parse_event text
          ≡ record { priority = pos priority; name = name; params = params; raw = text })
parse_event-message priority name params spaceless unbroken unbroken' =
    let text = message priority (body name params) in
    let kept : Keeps is_newline (body name params) =
      All-append (λ c. is_newline c ≡ false) name (b' ' ∷ params) unbroken (refl, unbroken') in
    let whole = rstrip-Keeps is_newline (body name params) kept in
    (
      message-is_event priority (body name params),
      parse_event-prefix text (record { priority = pos priority; body = body name params })
            (event_prefix-message priority (body name params))
          ∙ ap (λ (b : Text). event_from text priority (partition b' ' b)) whole
          ∙ ap (event_from text priority) (partition-append b' ' name params spaceless),
    )
