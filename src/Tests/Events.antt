-- ===== src/Tests/Events.antt =====
-- Event messages of wpa_ctrl/events.py.
use wpa_ctrl_py.Event.Names.Known.{parse_event-known}
use wpa_ctrl_py.Text.Constants.{constant}
use wpa_ctrl_py.Base.{ℕ, ◌↔◌, ◌≡◌, refl, true, List, [], ◌∷◌, arith, All}
use wpa_ctrl_py.Base.Int.{pos}
use wpa_ctrl_py.Base.{◌++◌, some}
use wpa_ctrl_py.Result.{ok, ◌>>=◌}
use wpa_ctrl_py.Text.{Text, Bytes, codes, text_eq}
use wpa_ctrl_py.Text.Utf8.Ascii.{IsByte}
use wpa_ctrl_py.Event.View.{from_event, ssid_temp_disabled, disabled_ssid_bytes}
use wpa_ctrl_py.Event.View.Disabled.{Without, ssid_key, ssid_entry, disabled_ssid_bytes-payload}
use wpa_ctrl_py.Event.{Event, parse_event, is_event}
use wpa_ctrl_py.Event.Message.{message, body, parse_event-message}
use wpa_ctrl_py.Event.Split.Laws.{none_left, char, pair}
use wpa_ctrl_py.Event.Params.{parse_params}
use wpa_ctrl_py.Event.Params.Fields.{
  Field, bare, quoted, IsField, payload, assign, parse_params-payload,
}

-- `id=1` and `s="a \"b"`.
abbrev fields : List Field
fields = bare (codes "i") (codes "1") ∷ quoted (codes "s") (codes "a \\\"b") ∷ []

fields-IsField : All IsField fields
fields-IsField = (
  ((refl, ((omega arith, omega arith), tt), (omega arith, tt)), ((omega arith, omega arith), tt)),
  (
    (
      (refl, ((omega arith, omega arith), tt), (omega arith, tt)),
      char (omega arith) (omega arith)
          (char (omega arith) (omega arith) (pair (char (omega arith) (omega arith) none_left))),
    ),
    tt,
  ),
)

parse_params-payload_example : parse_params (payload fields) ≡ assign [] fields
parse_params-payload_example = parse_params-payload fields fields-IsField

abbrev name : Text
name = codes "AP-X"

abbrev params : Text
params = codes "a b"

parse_event-message_example :
    (let text = message 3 (body name params) in
      (is_event text ≡ true)
      × parse_event text ≡ record { priority = pos 3; name = name; params = params; raw = text })
parse_event-message_example =
    parse_event-message 3 name params (omega arith, (omega arith, (omega arith, (omega arith, tt))))
      (refl, (refl, (refl, (refl, tt)))) (refl, (refl, (refl, tt)))

-- An SSID that holds a quote, a space and a byte that is no text.
abbrev octets : Bytes
octets = b'"' ∷ b' ' ∷ 255 ∷ []

octets-IsByte : All IsByte octets
octets-IsByte = (omega arith, (omega arith, (omega arith, tt)))

abbrev reason : List Field
reason = bare (codes "reason") (codes "X") ∷ []

reason-IsField : All IsField reason
reason-IsField = (
  (
    (
      refl,
      (
        (omega arith, omega arith),
        (
          (omega arith, omega arith),
          (
            (omega arith, omega arith),
            (
              (omega arith, omega arith),
              ((omega arith, omega arith), ((omega arith, omega arith), tt)),
            ),
          ),
        ),
      ),
      (omega arith, (omega arith, (omega arith, (omega arith, (omega arith, (omega arith, tt)))))),
    ),
    ((omega arith, omega arith), tt),
  ),
  tt,
)

abbrev temp_disabled : Event
temp_disabled = record {
  priority = pos 3;
  name = ssid_temp_disabled;
  params = payload ([] ++ ssid_entry octets ∷ reason);
  raw = [];
}

later : Without ssid_key reason
unfolding text_eq
later = (refl, tt)

disabled_ssid_bytes-payload_example :
    (from_event ssid_temp_disabled temp_disabled >>= λ d. disabled_ssid_bytes d) ≡ ok (some octets)
disabled_ssid_bytes-payload_example =
    disabled_ssid_bytes-payload [] reason octets temp_disabled tt reason-IsField later octets-IsByte
      refl refl

abbrev connected_at : ℕ
connected_at = 2

abbrev disconnected_at : ℕ
disconnected_at = 3

-- CTRL-EVENT-CONNECTED, beside CTRL-EVENT-DISCONNECTED.
parse_event-known_example :
    (let text = message 3 (body (codes "CTRL-EVENT-CONNECTED") (codes "x")) in
      (is_event text ≡ true)
      × ((parse_event text).params ≡ codes "x")
      × ((text_eq (parse_event text).name (codes "CTRL-EVENT-DISCONNECTED") ≡ true)
          ↔ (connected_at ≡ disconnected_at)))
parse_event-known_example =
    parse_event-known 3 connected_at disconnected_at
      (constant "CTRL_EVENT_CONNECTED" "CTRL-EVENT-CONNECTED")
      (constant "CTRL_EVENT_DISCONNECTED" "CTRL-EVENT-DISCONNECTED") (codes "x") refl refl
      (refl, tt)
