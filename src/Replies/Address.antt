-- ===== src/Replies/Address.antt =====
-- `_is_address`, `_addressed_variables`, `Station` and `P2pPeer` of wpa_ctrl/replies.py.
pub mod Reading
use wpa_ctrl_py.Base.{
  ℕ, Bool, true, false, ◌&&◌, List, [], ◌∷◌, Option, none, some, ◌==◌, if◌then◌else◌, all, length,
}
use wpa_ctrl_py.Text.{Text, partition, split, strip, is_hex_digit}
use wpa_ctrl_py.Dict.{Dict}
use wpa_ctrl_py.Replies.Parse.{parse_variables}

-- One part of an address.
abbrev pub is_octet : Text → Bool
is_octet (a ∷ b ∷ []) = is_hex_digit a && is_hex_digit b
is_octet _ = false

unfoldable pub is_address : Text → Bool
is_address text = let parts = split b':' text in length parts == 6 && all is_octet parts

-- A `Station` or a `P2pPeer`: the address rides beside the dict.
pub record Addressed : Type 0 where
  pub address : Text
  pub variables : Dict

-- `none` is the pair `(None, {})`.
unfoldable pub addressed_variables : Text → Option Addressed
addressed_variables reply =
    let p = partition b'\n' reply in
    let address = strip p.before in
    if is_address address
    then some (record { address = address; variables = parse_variables p.after })
    else none
