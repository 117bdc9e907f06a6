-- ===== src/Replies/Readings.antt =====
-- The typed replies of wpa_ctrl/replies.py, read from the block that the daemon prints.
use wpa_ctrl_py.Base.{
  ◌≡◌, refl, ap, [], ◌∷◌, ◌++◌, Option, none, some, All, All-append, if◌then◌else◌,
}
use wpa_ctrl_py.Base.Int.{ℤ, pos, negsuc}
use wpa_ctrl_py.Result.{ok}
use wpa_ctrl_py.Text.{Text, Bytes, codes, text_eq}
use wpa_ctrl_py.Text.Number.{decimal_ℤ}
use wpa_ctrl_py.Text.Utf8.{decode}
use wpa_ctrl_py.Text.Utf8.Ascii.{IsByte}
use wpa_ctrl_py.Ssid.Printf.Escape.{printf_escape}
use wpa_ctrl_py.Replies.Parse.{parse_variables}
use wpa_ctrl_py.Replies.Parse.Blocks.{Variables, IsVariable, block}
use wpa_ctrl_py.Replies.Printed.{
  Without, get-block, int_field-decimal, ssid_field-escaped, printf_escape-IsLine,
  is_key-IsVariable, decimal_ℤ-IsLine,
}
use wpa_ctrl_py.Replies.Signal.{
  int_eq, unless_eq, rssi, linkspeed, noise, frequency, status_ssid_bytes, status_ssid_text,
}
use wpa_ctrl_py.Replies.Bss
use wpa_ctrl_py.Replies.Fields.{text_of}

abbrev pub ssid_variable : Bytes → Text × Text
ssid_variable octets = (codes "ssid", printf_escape octets)

-- In a reply whose last SSID is printed as the daemon escapes it, BSS and STATUS alike read the
-- octets of the SSID, whatever they are, and as text what the octets are in UTF-8.
pub ssid_text-printed :
    (octets : Bytes) (before after : Variables)
    → All IsByte octets
    → All IsVariable before
    → All IsVariable after
    → Without (codes "ssid") after
    → (let d = parse_variables (block (before ++ ssid_variable octets ∷ after)) in
        (Bss.ssid_bytes d ≡ ok (some octets))
        × (Bss.ssid_text d ≡ ok (decode octets))
        × (status_ssid_bytes d ≡ ok (some octets))
        × (status_ssid_text d ≡ ok (decode octets)))
unfolding text_of
ssid_text-printed octets before after h hb ha later =
    let key = codes "ssid" in
    let printed = printf_escape octets in
    let there =
      get-block key printed before after
        (All-append IsVariable before ((key, printed) ∷ after) hb
          (is_key-IsVariable key printed refl (printf_escape-IsLine octets h), ha))
        later in
    let d = parse_variables (block (before ++ ssid_variable octets ∷ after)) in
    let read = ssid_field-escaped d key octets h there in
    (read, ap text_of read, read, ap text_of read)

-- The four readings that SIGNAL_POLL always prints.
abbrev pub signal_variables : ℤ → ℤ → ℤ → ℤ → Variables → Variables
signal_variables rssi linkspeed noise frequency more =
    (codes "RSSI", decimal_ℤ rssi)
    ∷ (codes "LINKSPEED", decimal_ℤ linkspeed)
    ∷ (codes "NOISE", decimal_ℤ noise)
    ∷ (codes "FREQUENCY", decimal_ℤ frequency)
    ∷ more

-- None for the daemon's number that means no reading.
abbrev pub reading : ℤ → ℤ → Option ℤ
reading sentinel z = if int_eq z sentinel then none else some z

signal_variables-IsVariable :
    (r l n f : ℤ) (more : Variables)
    → All IsVariable more
    → All IsVariable (signal_variables r l n f more)
signal_variables-IsVariable r l n f more h = (
  is_key-IsVariable (codes "RSSI") (decimal_ℤ r) refl (decimal_ℤ-IsLine r),
  (
    is_key-IsVariable (codes "LINKSPEED") (decimal_ℤ l) refl (decimal_ℤ-IsLine l),
    (
      is_key-IsVariable (codes "NOISE") (decimal_ℤ n) refl (decimal_ℤ-IsLine n),
      (is_key-IsVariable (codes "FREQUENCY") (decimal_ℤ f) refl (decimal_ℤ-IsLine f), h),
    ),
  ),
)

-- The reply of SIGNAL_POLL gives back the four readings that the daemon printed first, if none of
-- its later variables has one of their keys: the signal is None for -9999 and the noise for 9999.
pub signal_poll-printed :
    (r l n f : ℤ) (more : Variables)
    → All IsVariable more
    → Without (codes "RSSI") more
    → Without (codes "LINKSPEED") more
    → Without (codes "NOISE") more
    → Without (codes "FREQUENCY") more
    → (let d = parse_variables (block (signal_variables r l n f more)) in
        (rssi d ≡ ok (reading (negsuc 9998) r))
        × (linkspeed d ≡ ok (some l))
        × (noise d ≡ ok (reading (pos 9999) n))
        × (frequency d ≡ ok (some f)))
unfolding rssi noise unless_eq text_eq
signal_poll-printed r l n f more h no_r no_l no_n no_f =
    let all = signal_variables-IsVariable r l n f more h in
    let d = parse_variables (block (signal_variables r l n f more)) in
    let var_r : Text × Text = (codes "RSSI", decimal_ℤ r) in
    let var_l : Text × Text = (codes "LINKSPEED", decimal_ℤ l) in
    let var_n : Text × Text = (codes "NOISE", decimal_ℤ n) in
    let var_f : Text × Text = (codes "FREQUENCY", decimal_ℤ f) in
    let get_r =
      get-block (codes "RSSI") (decimal_ℤ r) [] (var_l ∷ var_n ∷ var_f ∷ more) all
        (refl, (refl, (refl, no_r))) in
    let get_l =
      get-block (codes "LINKSPEED") (decimal_ℤ l) (var_r ∷ []) (var_n ∷ var_f ∷ more) all
        (refl, (refl, no_l)) in
    let get_n =
      get-block (codes "NOISE") (decimal_ℤ n) (var_r ∷ var_l ∷ []) (var_f ∷ more) all
        (refl, no_n) in
    let get_f =
      get-block (codes "FREQUENCY") (decimal_ℤ f) (var_r ∷ var_l ∷ var_n ∷ []) more all no_f in
    (
      rw (int_field-decimal d (codes "RSSI") r get_r) refl,
      int_field-decimal d (codes "LINKSPEED") l get_l,
      rw (int_field-decimal d (codes "NOISE") n get_n) refl,
      int_field-decimal d (codes "FREQUENCY") f get_f,
    )
