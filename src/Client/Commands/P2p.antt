-- ===== src/Client/Commands/P2p.antt =====
-- The Wi-Fi Direct commands of wpa_ctrl/client.py.
use wpa_ctrl_py.Base.{List, [], ◌∷◌, ◌++◌, Option}
use wpa_ctrl_py.Base.Int.{ℤ}
use wpa_ctrl_py.Text.{Text, codes}
use wpa_ctrl_py.Text.Number.{decimal_ℤ}
use wpa_ctrl_py.Replies.Address.{Addressed, addressed_variables}
use wpa_ctrl_py.Transport.Exec.{Exec}
use wpa_ctrl_py.Client.State.{Client}
use wpa_ctrl_py.Client.Commands.Wording.{
  tell, ask, ask_text, optional, map_option, both, Persistent, persistent_words,
}

abbrev pub p2p_find : Option ℤ → Option Text → Exec Client (Unit {0})
p2p_find duration kind =
    tell (codes "P2P_FIND" ∷ optional "" (map_option decimal_ℤ duration) ++ optional "type=" kind)

abbrev pub p2p_stop_find : Exec Client (Unit {0})
p2p_stop_find = tell (codes "P2P_STOP_FIND" ∷ [])

abbrev pub p2p_connect : Text → Text → List Text → Exec Client Text
p2p_connect address method extra = ask_text (codes "P2P_CONNECT" ∷ address ∷ method ∷ extra)

abbrev pub p2p_listen : Option ℤ → Exec Client (Unit {0})
p2p_listen duration = tell (codes "P2P_LISTEN" ∷ optional "" (map_option decimal_ℤ duration))

abbrev pub p2p_group_remove : Text → Exec Client (Unit {0})
p2p_group_remove ifname = tell (codes "P2P_GROUP_REMOVE" ∷ ifname ∷ [])

abbrev pub p2p_group_add : Persistent → Option ℤ → Exec Client (Unit {0})
p2p_group_add persistent freq = tell (
    codes "P2P_GROUP_ADD" ∷ persistent_words persistent
    ++ optional "freq=" (map_option decimal_ℤ freq))

abbrev pub p2p_prov_disc : Text → Text → Exec Client (Unit {0})
p2p_prov_disc address method = tell (codes "P2P_PROV_DISC" ∷ address ∷ method ∷ [])

abbrev pub p2p_get_passphrase : Exec Client Text
p2p_get_passphrase = ask_text (codes "P2P_GET_PASSPHRASE" ∷ [])

abbrev pub p2p_serv_disc_req : Text → Text → Exec Client Text
p2p_serv_disc_req address query = ask_text (codes "P2P_SERV_DISC_REQ" ∷ address ∷ query ∷ [])

abbrev pub p2p_serv_disc_cancel_req : Text → Exec Client (Unit {0})
p2p_serv_disc_cancel_req request_id = tell (codes "P2P_SERV_DISC_CANCEL_REQ" ∷ request_id ∷ [])

abbrev pub p2p_serv_disc_resp : ℤ → Text → Text → Text → Exec Client (Unit {0})
p2p_serv_disc_resp freq address dialog_token tlvs =
    tell (codes "P2P_SERV_DISC_RESP" ∷ decimal_ℤ freq ∷ address ∷ dialog_token ∷ tlvs ∷ [])

abbrev pub p2p_service_update : Exec Client (Unit {0})
p2p_service_update = tell (codes "P2P_SERVICE_UPDATE" ∷ [])

abbrev pub p2p_serv_disc_external : ℤ → Exec Client (Unit {0})
p2p_serv_disc_external external = tell (codes "P2P_SERV_DISC_EXTERNAL" ∷ decimal_ℤ external ∷ [])

abbrev pub p2p_reject : Text → Exec Client (Unit {0})
p2p_reject address = tell (codes "P2P_REJECT" ∷ address ∷ [])

abbrev pub p2p_invite : Option Text → Option Text → Option Text → Exec Client (Unit {0})
p2p_invite group peer persistent = tell (
    codes "P2P_INVITE" ∷ optional "persistent=" persistent
    ++ optional "group=" group
    ++ optional "peer=" peer)

abbrev pub p2p_peer : Text → Exec Client (Option Addressed)
p2p_peer selector = ask (codes "P2P_PEER" ∷ selector ∷ []) addressed_variables

abbrev pub p2p_ext_listen : Option ℤ → Option ℤ → Exec Client (Unit {0})
p2p_ext_listen period interval = tell (codes "P2P_EXT_LISTEN" ∷ both period interval)
