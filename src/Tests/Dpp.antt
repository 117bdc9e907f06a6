-- ===== src/Tests/Dpp.antt =====
-- Parameters and channels of wpa_ctrl/dpp.py.
use wpa_ctrl_py.Base.{◌⊎◌, ℕ, ◌≡◌, ◌↔◌, refl, [], ◌∷◌, none, some, arith}
use wpa_ctrl_py.Result.{ok}
use wpa_ctrl_py.Text.{codes, rstrip}
use wpa_ctrl_py.Text.Number.{decimal}
use wpa_ctrl_py.Event.Params.{parse_params}
use wpa_ctrl_py.Event.Params.Fields.{assign}
use wpa_ctrl_py.Dpp.Params.{Params, text, format_params}
use wpa_ctrl_py.Dpp.Params.Reading.{IsWritable, given, parse_params-format_params}
use wpa_ctrl_py.Dpp.Channel.{spec, dpp_channel}
use wpa_ctrl_py.Dpp.Channel.Classes.{IsChannel, IsBetween, dpp_channel_iff}
use wpa_ctrl_py.Dpp.Configurator.{dpp_configurator_params}
use wpa_ctrl_py.Dpp.Configurator.Secrets.{Accepted, dpp_configurator_params_iff}

-- `pass_=70` and a parameter that is left out.
abbrev params : Params
params = (codes "pass_", some (codes "70")) ∷ (codes "peer", none) ∷ []

params-IsWritable : IsWritable params
unfolding rstrip
params-IsWritable = (
  (
    (
      refl,
      (
        (omega arith, omega arith),
        (
          (omega arith, omega arith),
          ((omega arith, omega arith), ((omega arith, omega arith), tt)),
        ),
      ),
      (omega arith, (omega arith, (omega arith, (omega arith, tt)))),
    ),
    ((omega arith, omega arith), ((omega arith, omega arith), tt)),
  ),
  tt,
)

parse_params-format_params_example : parse_params (format_params params) ≡ assign [] (given params)
parse_params-format_params_example = parse_params-format_params params params-IsWritable

dpp_channel_iff_example : (dpp_channel 5180 ≡ some (codes "115/36")) ↔ (
    (c : ℕ) × (n : ℕ) × ((IsChannel c n 5180 ⊎ IsBetween c n 5180) × (codes "115/36" ≡ spec c n)))
dpp_channel_iff_example = dpp_channel_iff 5180 (codes "115/36")

channel_36 : dpp_channel 5180 ≡ some (codes "115/36")
unfolding dpp_channel spec decimal
channel_36 = refl

-- A frequency between two channels of 20 MHz.
channel_37 : dpp_channel 5185 ≡ some (codes "115/37")
unfolding dpp_channel spec decimal
channel_37 = refl

dpp_configurator_params_iff_example :
    (dpp_configurator_params (codes "sta-psk") (text (codes "net")) (some []) none none []
      ≡ ok (codes "conf=sta-psk ssid=6e6574"))
    ↔ Accepted
        (codes "sta-psk")
        (text (codes "net"))
        none
        []
        (some [])
        none
        (codes "conf=sta-psk ssid=6e6574")
dpp_configurator_params_iff_example =
    dpp_configurator_params_iff (codes "sta-psk") (text (codes "net")) none [] (some []) none
      (codes "conf=sta-psk ssid=6e6574")
