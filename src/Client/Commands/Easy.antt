-- ===== src/Client/Commands/Easy.antt =====
-- The DPP (Wi-Fi Easy Connect) commands of wpa_ctrl/client.py. An identifier is the text that it is
-- written as.
use wpa_ctrl_py.Base.{[], ◌∷◌}
use wpa_ctrl_py.Base.Int.{ℤ}
use wpa_ctrl_py.Text.{Text, codes}
use wpa_ctrl_py.Text.Number.{decimal_ℤ}
use wpa_ctrl_py.Dict.{Dict}
use wpa_ctrl_py.Replies.Parse.{parse_variables}
use wpa_ctrl_py.Dpp.Params.{Params, format_params}
use wpa_ctrl_py.Transport.Exec.{Exec}
use wpa_ctrl_py.Client.State.{Client}
use wpa_ctrl_py.Client.Commands.Wording.{tell, ask, ask_text, with_arguments, dpp_id}

abbrev pub dpp_configurator_add : Params → Exec Client ℤ
dpp_configurator_add params = dpp_id (codes "DPP_CONFIGURATOR_ADD") (format_params params)

abbrev pub dpp_configurator_get_key : Text → Exec Client Text
dpp_configurator_get_key configurator_id =
    ask_text (codes "DPP_CONFIGURATOR_GET_KEY" ∷ configurator_id ∷ [])

abbrev pub dpp_configurator_set : Text → Params → Exec Client (Unit {0})
dpp_configurator_set configurator_id params =
    tell (codes "DPP_CONFIGURATOR_SET" ∷ configurator_id ∷ format_params params ∷ [])

abbrev pub dpp_configurator_remove : Text → Exec Client (Unit {0})
dpp_configurator_remove configurator_id =
    tell (codes "DPP_CONFIGURATOR_REMOVE" ∷ configurator_id ∷ [])

abbrev pub dpp_configurator_sign : Params → Exec Client (Unit {0})
dpp_configurator_sign params = tell (codes "DPP_CONFIGURATOR_SIGN" ∷ format_params params ∷ [])

abbrev pub dpp_bootstrap_gen : Params → Exec Client ℤ
dpp_bootstrap_gen params = dpp_id (codes "DPP_BOOTSTRAP_GEN") (format_params params)

abbrev pub dpp_bootstrap_get_uri : Text → Exec Client Text
dpp_bootstrap_get_uri bootstrap_id = ask_text (codes "DPP_BOOTSTRAP_GET_URI" ∷ bootstrap_id ∷ [])

abbrev pub dpp_bootstrap_info : Text → Exec Client Dict
dpp_bootstrap_info bootstrap_id =
    ask (codes "DPP_BOOTSTRAP_INFO" ∷ bootstrap_id ∷ []) parse_variables

abbrev pub dpp_bootstrap_set : Text → Params → Exec Client (Unit {0})
dpp_bootstrap_set bootstrap_id params =
    tell (codes "DPP_BOOTSTRAP_SET" ∷ bootstrap_id ∷ format_params params ∷ [])

abbrev pub dpp_bootstrap_remove : Text → Exec Client (Unit {0})
dpp_bootstrap_remove bootstrap_id = tell (codes "DPP_BOOTSTRAP_REMOVE" ∷ bootstrap_id ∷ [])

abbrev pub dpp_qr_code : Text → Exec Client ℤ
dpp_qr_code uri = dpp_id (codes "DPP_QR_CODE") uri

abbrev pub dpp_nfc_uri : Text → Exec Client ℤ
dpp_nfc_uri uri = dpp_id (codes "DPP_NFC_URI") uri

abbrev pub dpp_nfc_handover_req : Text → Exec Client ℤ
dpp_nfc_handover_req uri = dpp_id (codes "DPP_NFC_HANDOVER_REQ") uri

abbrev pub dpp_nfc_handover_sel : Text → Exec Client ℤ
dpp_nfc_handover_sel uri = dpp_id (codes "DPP_NFC_HANDOVER_SEL") uri

abbrev pub dpp_listen : ℤ → Params → Exec Client (Unit {0})
dpp_listen freq params =
    tell (with_arguments (codes "DPP_LISTEN" ∷ decimal_ℤ freq ∷ []) (format_params params))

abbrev pub dpp_stop_listen : Exec Client (Unit {0})
dpp_stop_listen = tell (codes "DPP_STOP_LISTEN" ∷ [])

abbrev pub dpp_auth_init : Params → Exec Client (Unit {0})
dpp_auth_init params = tell (codes "DPP_AUTH_INIT" ∷ format_params params ∷ [])

abbrev pub dpp_chirp : Params → Exec Client (Unit {0})
dpp_chirp params = tell (codes "DPP_CHIRP" ∷ format_params params ∷ [])

abbrev pub dpp_stop_chirp : Exec Client (Unit {0})
dpp_stop_chirp = tell (codes "DPP_STOP_CHIRP" ∷ [])

abbrev pub dpp_push_button : Params → Exec Client (Unit {0})
dpp_push_button params = tell (with_arguments (codes "DPP_PUSH_BUTTON" ∷ []) (format_params params))

abbrev pub dpp_reconfig : Text → Exec Client (Unit {0})
dpp_reconfig arguments = tell (codes "DPP_RECONFIG" ∷ arguments ∷ [])

abbrev pub dpp_pkex_add : Params → Exec Client ℤ
dpp_pkex_add params = dpp_id (codes "DPP_PKEX_ADD") (format_params params)

abbrev pub dpp_pkex_remove : Text → Exec Client (Unit {0})
dpp_pkex_remove pkex_id = tell (codes "DPP_PKEX_REMOVE" ∷ pkex_id ∷ [])

abbrev pub dpp_controller_start : Params → Exec Client (Unit {0})
dpp_controller_start params =
    tell (with_arguments (codes "DPP_CONTROLLER_START" ∷ []) (format_params params))

abbrev pub dpp_controller_stop : Exec Client (Unit {0})
dpp_controller_stop = tell (codes "DPP_CONTROLLER_STOP" ∷ [])

abbrev pub dpp_relay_add_controller : Text → Exec Client (Unit {0})
dpp_relay_add_controller arguments = tell (codes "DPP_RELAY_ADD_CONTROLLER" ∷ arguments ∷ [])

abbrev pub dpp_relay_remove_controller : Text → Exec Client (Unit {0})
dpp_relay_remove_controller arguments = tell (codes "DPP_RELAY_REMOVE_CONTROLLER" ∷ arguments ∷ [])

abbrev pub dpp_ca_set : Params → Exec Client (Unit {0})
dpp_ca_set params = tell (codes "DPP_CA_SET" ∷ format_params params ∷ [])

abbrev pub dpp_conf_set : Params → Exec Client (Unit {0})
dpp_conf_set params = tell (codes "DPP_CONF_SET" ∷ format_params params ∷ [])
