-- ===== src/Event/Names/Peers.antt =====
-- The event names of wpa_ctrl/events.py, section by section: Wi-Fi Direct, NAN and mesh peers.
use wpa_ctrl_py.Base.{List, [], ◌∷◌}
use wpa_ctrl_py.Text.Constants.{Constant, constant}

-- Wi-Fi Direct.
abbrev pub p2p_names : List Constant
p2p_names =
    constant "P2P_DEVICE_FOUND" "P2P-DEVICE-FOUND"
    ∷ constant "P2P_DEVICE_LOST" "P2P-DEVICE-LOST"
    ∷ constant "P2P_GO_NEG_REQUEST" "P2P-GO-NEG-REQUEST"
    ∷ constant "P2P_GO_NEG_SUCCESS" "P2P-GO-NEG-SUCCESS"
    ∷ constant "P2P_GO_NEG_FAILURE" "P2P-GO-NEG-FAILURE"
    ∷ constant "P2P_GROUP_FORMATION_SUCCESS" "P2P-GROUP-FORMATION-SUCCESS"
    ∷ constant "P2P_GROUP_FORMATION_FAILURE" "P2P-GROUP-FORMATION-FAILURE"
    ∷ constant "P2P_GROUP_STARTED" "P2P-GROUP-STARTED"
    ∷ constant "P2P_GROUP_REMOVED" "P2P-GROUP-REMOVED"
    ∷ constant "P2P_CROSS_CONNECT_ENABLE" "P2P-CROSS-CONNECT-ENABLE"
    ∷ constant "P2P_CROSS_CONNECT_DISABLE" "P2P-CROSS-CONNECT-DISABLE"
    ∷ constant "P2P_PROV_DISC_SHOW_PIN" "P2P-PROV-DISC-SHOW-PIN"
    ∷ constant "P2P_PROV_DISC_ENTER_PIN" "P2P-PROV-DISC-ENTER-PIN"
    ∷ constant "P2P_PROV_DISC_PBC_REQ" "P2P-PROV-DISC-PBC-REQ"
    ∷ constant "P2P_PROV_DISC_PBC_RESP" "P2P-PROV-DISC-PBC-RESP"
    ∷ constant "P2P_PROV_DISC_FAILURE" "P2P-PROV-DISC-FAILURE"
    ∷ constant "P2P_SERV_DISC_REQ" "P2P-SERV-DISC-REQ"
    ∷ constant "P2P_SERV_DISC_RESP" "P2P-SERV-DISC-RESP"
    ∷ constant "P2P_SERV_ASP_RESP" "P2P-SERV-ASP-RESP"
    ∷ constant "P2P_INVITATION_RECEIVED" "P2P-INVITATION-RECEIVED"
    ∷ constant "P2P_INVITATION_RESULT" "P2P-INVITATION-RESULT"
    ∷ constant "P2P_INVITATION_ACCEPTED" "P2P-INVITATION-ACCEPTED"
    ∷ constant "P2P_FIND_STOPPED" "P2P-FIND-STOPPED"
    ∷ constant "P2P_PERSISTENT_PSK_FAIL" "P2P-PERSISTENT-PSK-FAIL"
    ∷ constant "P2P_PRESENCE_RESPONSE" "P2P-PRESENCE-RESPONSE"
    ∷ constant "P2P_NFC_BOTH_GO" "P2P-NFC-BOTH-GO"
    ∷ constant "P2P_NFC_PEER_CLIENT" "P2P-NFC-PEER-CLIENT"
    ∷ constant "P2P_NFC_WHILE_CLIENT" "P2P-NFC-WHILE-CLIENT"
    ∷ constant "P2P_FALLBACK_TO_GO_NEG" "P2P-FALLBACK-TO-GO-NEG"
    ∷ constant "P2P_FALLBACK_TO_GO_NEG_ENABLED" "P2P-FALLBACK-TO-GO-NEG-ENABLED"
    ∷ constant "P2P_REMOVE_AND_REFORM_GROUP" "P2P-REMOVE-AND-REFORM-GROUP"
    ∷ constant "P2P_BOOTSTRAP_REQUEST" "P2P-BOOTSTRAP-REQUEST"
    ∷ constant "P2P_BOOTSTRAP_SUCCESS" "P2P-BOOTSTRAP-SUCCESS"
    ∷ constant "P2P_BOOTSTRAP_FAILURE" "P2P-BOOTSTRAP-FAILURE"
    ∷ constant "P2P_LISTEN_OFFLOAD_STOPPED" "P2P-LISTEN-OFFLOAD-STOPPED"
    ∷ constant "P2P_LISTEN_OFFLOAD_STOP_REASON" "P2P-LISTEN-OFFLOAD-STOP-REASON"
    ∷ []

-- Wi-Fi Direct services.
abbrev pub p2p_services_names : List Constant
p2p_services_names =
    constant "P2PS_PROV_START" "P2PS-PROV-START" ∷ constant "P2PS_PROV_DONE" "P2PS-PROV-DONE" ∷ []

-- Proximity ranging.
abbrev pub proximity_ranging_names : List Constant
proximity_ranging_names =
    constant "PR_PASN_NEGOTIATION_STARTED" "PR-PASN-NEGOTIATION-STARTED"
    ∷ constant "PR_PASN_RESULT" "PR-PASN-RESULT"
    ∷ constant "PR_RANGING_TERMINATED" "PR-RANGING-TERMINATED"
    ∷ constant "PR_RANGING_PARAMS" "PR-RANGING-PARAMS"
    ∷ constant "PR_PEER_MEASUREMENT" "PR-PEER-MEASUREMENT"
    ∷ constant "PR_RANGING_COMPLETE" "PR-RANGING-COMPLETE"
    ∷ constant "PR_PEER_FOUND" "PR-PEER-FOUND"
    ∷ []

-- Neighbor Awareness Networking.
abbrev pub nan_names : List Constant
nan_names =
    constant "NAN_DISCOVERY_RESULT" "NAN-DISCOVERY-RESULT"
    ∷ constant "NAN_REPLIED" "NAN-REPLIED"
    ∷ constant "NAN_PUBLISH_TERMINATED" "NAN-PUBLISH-TERMINATED"
    ∷ constant "NAN_SUBSCRIBE_TERMINATED" "NAN-SUBSCRIBE-TERMINATED"
    ∷ constant "NAN_RECEIVE" "NAN-RECEIVE"
    ∷ constant "NAN_TRANSMIT_STATUS" "NAN-TRANSMIT-STATUS"
    ∷ constant "NAN_CLUSTER_JOIN" "NAN-CLUSTER-JOIN"
    ∷ constant "NAN_NDP_REQUEST" "NAN-NDP-REQUEST"
    ∷ constant "NAN_NDP_COUNTER_REQUEST" "NAN-NDP-COUNTER-REQUEST"
    ∷ constant "NAN_NDP_CONNECTED" "NAN-NDP-CONNECTED"
    ∷ constant "NAN_NDP_DISCONNECTED" "NAN-NDP-DISCONNECTED"
    ∷ constant "NAN_BOOTSTRAP_REQUEST" "NAN-BOOTSTRAP-REQUEST"
    ∷ constant "NAN_BOOTSTRAP_SUCCESS" "NAN-BOOTSTRAP-SUCCESS"
    ∷ constant "NAN_BOOTSTRAP_FAILURE" "NAN-BOOTSTRAP-FAILURE"
    ∷ constant "NAN_NIK_RECEIVED" "NAN-NIK-RECEIVED"
    ∷ constant "NAN_PAIRING_REQUEST" "NAN-PAIRING-REQUEST"
    ∷ constant "NAN_PEER_SCHEDULE_CHANGED" "NAN-PEER-SCHEDULE-CHANGED"
    ∷ constant "NAN_SCHEDULE_UPDATE_DONE" "NAN-SCHEDULE-UPDATE-DONE"
    ∷ constant "NAN_PAIRING_STATUS" "NAN-PAIRING-STATUS"
    ∷ constant "NAN_CHAN_EVACUATION" "NAN-CHAN-EVACUATION"
    ∷ constant "NAN_STOPPED" "NAN-STOPPED"
    ∷ []

-- 802.11s mesh.
abbrev pub mesh_names : List Constant
mesh_names =
    constant "MESH_GROUP_STARTED" "MESH-GROUP-STARTED"
    ∷ constant "MESH_GROUP_REMOVED" "MESH-GROUP-REMOVED"
    ∷ constant "MESH_PEER_CONNECTED" "MESH-PEER-CONNECTED"
    ∷ constant "MESH_PEER_DISCONNECTED" "MESH-PEER-DISCONNECTED"
    ∷ constant "MESH_SAE_AUTH_FAILURE" "MESH-SAE-AUTH-FAILURE"
    ∷ constant "MESH_SAE_AUTH_BLOCKED" "MESH-SAE-AUTH-BLOCKED"
    ∷ []
