-- ===== src/Dpp/Channel.antt =====
-- `dpp_channel` of wpa_ctrl/dpp.py. A frequency is a number of MHz; a negative one is out of every
-- range that the source tests, and is left out.
pub mod Table
pub mod Classes
use wpa_ctrl_py.Base.{
  ℕ, ◌+◌, ◌-◌, ◌*◌, ◌/◌, ◌%◌, Bool, ◌&&◌, List, [], ◌∷◌, ◌++◌, Option, none, some, ◌==◌,
  if◌then◌else◌,
}
use wpa_ctrl_py.Text.{Text, between}
use wpa_ctrl_py.Text.Number.{decimal}

-- `f"{operating_class}/{channel}"`.
unfoldable pub spec : ℕ → ℕ → Text
spec operating_class channel = decimal operating_class ++ b'/' ∷ decimal channel

-- One of `_FIVE_GHZ_CLASSES`.
pub record FiveGhzClass : Type 0 where
  pub operating_class : ℕ
  pub low : ℕ
  pub high : ℕ

abbrev five_ghz : ℕ → ℕ → ℕ → FiveGhzClass
five_ghz operating_class low high = record {
  operating_class = operating_class;
  low = low;
  high = high;
}

abbrev pub five_ghz_classes : List FiveGhzClass
five_ghz_classes =
    five_ghz 115 36 48 ∷ five_ghz 118 52 64 ∷ five_ghz 121 100 144 ∷ five_ghz 125 149 177 ∷ []

-- The loop over the classes, and what follows it where none holds the channel.
abbrev pub five_ghz_channel : List FiveGhzClass → ℕ → Option Text → Option Text
five_ghz_channel [] channel otherwise = otherwise
five_ghz_channel (c ∷ classes) channel otherwise =
    if between c.low c.high channel
    then some (spec c.operating_class channel)
    else five_ghz_channel classes channel otherwise

unfoldable pub six_ghz_channel : ℕ → Option Text
six_ghz_channel frequency =
    if frequency == 5935
    then some (spec 136 2)
    else if between 5955 7115 frequency && (frequency - 5955) % 20 == 0
    then some (spec 131 ((frequency - 5950) / 5))
    else none

unfoldable pub dpp_channel : ℕ → Option Text
unfolding six_ghz_channel
dpp_channel frequency =
    if between 2412 2472 frequency && (frequency - 2412) % 5 == 0
    then some (spec 81 ((frequency - 2412) / 5 + 1))
    else if frequency == 2484
    then some (spec 82 14)
    else if between 5180 5885 frequency && (frequency - 5180) % 5 == 0
    then five_ghz_channel five_ghz_classes ((frequency - 5000) / 5) (six_ghz_channel frequency)
    else six_ghz_channel frequency
