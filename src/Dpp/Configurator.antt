-- ===== src/Dpp/Configurator.antt =====
-- `DppConf` and `dpp_configurator_params` of wpa_ctrl/dpp.py.
pub mod Secrets
use wpa_ctrl_py.Base.{
  Bool, true, false, not, ◌&&◌, ◌||◌, List, [], ◌∷◌, ◌++◌, Option, none, some, ◌==◌, if◌then◌else◌,
  all, length,
}
use wpa_ctrl_py.Result.{Result, ok, err, value_error, ◌>>=◌}
use wpa_ctrl_py.Text.{Text, codes, is_hex_digit}
use wpa_ctrl_py.Dpp.Params.{Params, Octets, text, dpp_hex, format_params}

-- The values of `DppConf`, in the order of the class.
abbrev pub dpp_confs : List Text
dpp_confs =
    codes "sta-psk"
    ∷ codes "sta-sae"
    ∷ codes "sta-psk-sae"
    ∷ codes "sta-dpp"
    ∷ codes "sta-sae-dpp"
    ∷ codes "sta-psk-sae-dpp"
    ∷ codes "sta-dot1x"
    ∷ codes "ap-psk"
    ∷ codes "ap-sae"
    ∷ codes "ap-psk-sae"
    ∷ codes "ap-dpp"
    ∷ []

abbrev pub is_none : Option Text → Bool
is_none none = true
is_none (some t) = false

-- `psk is not None and (len(psk) != 64 or any(...))`.
abbrev pub bad_psk : Option Text → Bool
bad_psk none = false
bad_psk (some psk) = not (length psk == 64) || not (all is_hex_digit psk)

-- `{"pass": dpp_hex(passphrase)} if passphrase else {"psk": psk}`: an empty passphrase is false.
unfoldable pub secret_params : Option Text → Option Text → Result Params
secret_params (some (c ∷ phrase)) psk =
    dpp_hex (text (c ∷ phrase)) >>= λ hex. ok ((codes "pass", some hex) ∷ [])
secret_params (some []) psk = ok ((codes "psk", psk) ∷ [])
secret_params none psk = ok ((codes "psk", psk) ∷ [])

-- `a == b` of truth values.
abbrev pub same_bool : Bool → Bool → Bool
same_bool true b = b
same_bool false b = not b

-- The parameters in the order of the call, each under a name of its own: `extra` holds none of the
-- names that the call gives, as Python requires.
abbrev pub all_params : Text → Text → Params → Option Text → Params → Params
all_params conf ssid secret configurator extra =
    (codes "conf", some conf)
    ∷ (codes "ssid", some ssid)
    ∷ (secret ++ (codes "configurator", configurator) ∷ extra)

unfoldable pub dpp_configurator_params :
    Text → Octets → Option Text → Option Text → Option Text → Params → Result Text
dpp_configurator_params conf ssid passphrase psk configurator extra =
    if same_bool (is_none passphrase) (is_none psk)
    then err value_error
    else if bad_psk psk
    then err value_error
    else do
      secret ← secret_params passphrase psk
      ssid_hex ← dpp_hex ssid
      ok (format_params (all_params conf ssid_hex secret configurator extra))
