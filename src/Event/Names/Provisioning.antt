-- ===== src/Event/Names/Provisioning.antt =====
-- The event names of wpa_ctrl/events.py, section by section: DPP, Hotspot 2.0 and queries.
use wpa_ctrl_py.Base.{List, [], ◌∷◌}
use wpa_ctrl_py.Text.Constants.{Constant, constant}

-- Device Provisioning Protocol.
abbrev pub dpp_names : List Constant
dpp_names =
    constant "DPP_AUTH_SUCCESS" "DPP-AUTH-SUCCESS"
    ∷ constant "DPP_AUTH_INIT_FAILED" "DPP-AUTH-INIT-FAILED"
    ∷ constant "DPP_NOT_COMPATIBLE" "DPP-NOT-COMPATIBLE"
    ∷ constant "DPP_RESPONSE_PENDING" "DPP-RESPONSE-PENDING"
    ∷ constant "DPP_SCAN_PEER_QR_CODE" "DPP-SCAN-PEER-QR-CODE"
    ∷ constant "DPP_AUTH_DIRECTION" "DPP-AUTH-DIRECTION"
    ∷ constant "DPP_CONF_RECEIVED" "DPP-CONF-RECEIVED"
    ∷ constant "DPP_CONF_SENT" "DPP-CONF-SENT"
    ∷ constant "DPP_CONF_FAILED" "DPP-CONF-FAILED"
    ∷ constant "DPP_CONN_STATUS_RESULT" "DPP-CONN-STATUS-RESULT"
    ∷ constant "DPP_CONFOBJ_AKM" "DPP-CONFOBJ-AKM"
    ∷ constant "DPP_CONFOBJ_SSID" "DPP-CONFOBJ-SSID"
    ∷ constant "DPP_CONFOBJ_SSID_CHARSET" "DPP-CONFOBJ-SSID-CHARSET"
    ∷ constant "DPP_CONFOBJ_PASS" "DPP-CONFOBJ-PASS"
    ∷ constant "DPP_CONFOBJ_IDPASS" "DPP-CONFOBJ-IDPASS"
    ∷ constant "DPP_CONFOBJ_PSK" "DPP-CONFOBJ-PSK"
    ∷ constant "DPP_CONNECTOR" "DPP-CONNECTOR"
    ∷ constant "DPP_C_SIGN_KEY" "DPP-C-SIGN-KEY"
    ∷ constant "DPP_PP_KEY" "DPP-PP-KEY"
    ∷ constant "DPP_NET_ACCESS_KEY" "DPP-NET-ACCESS-KEY"
    ∷ constant "DPP_SERVER_NAME" "DPP-SERVER-NAME"
    ∷ constant "DPP_CERTBAG" "DPP-CERTBAG"
    ∷ constant "DPP_CACERT" "DPP-CACERT"
    ∷ constant "DPP_MISSING_CONNECTOR" "DPP-MISSING-CONNECTOR"
    ∷ constant "DPP_NETWORK_ID" "DPP-NETWORK-ID"
    ∷ constant "DPP_CONFIGURATOR_ID" "DPP-CONFIGURATOR-ID"
    ∷ constant "DPP_RX" "DPP-RX"
    ∷ constant "DPP_TX" "DPP-TX"
    ∷ constant "DPP_TX_STATUS" "DPP-TX-STATUS"
    ∷ constant "DPP_FAIL" "DPP-FAIL"
    ∷ constant "DPP_PKEX_T_LIMIT" "DPP-PKEX-T-LIMIT"
    ∷ constant "DPP_INTRO" "DPP-INTRO"
    ∷ constant "DPP_CONF_REQ_RX" "DPP-CONF-REQ-RX"
    ∷ constant "DPP_CHIRP_STOPPED" "DPP-CHIRP-STOPPED"
    ∷ constant "DPP_MUD_URL" "DPP-MUD-URL"
    ∷ constant "DPP_BAND_SUPPORT" "DPP-BAND-SUPPORT"
    ∷ constant "DPP_ENROLLEE_CAPABILITY" "DPP-ENROLLEE-CAPABILITY"
    ∷ constant "DPP_CSR" "DPP-CSR"
    ∷ constant "DPP_CHIRP_RX" "DPP-CHIRP-RX"
    ∷ constant "DPP_CONF_NEEDED" "DPP-CONF-NEEDED"
    ∷ constant "DPP_PB_STATUS" "DPP-PB-STATUS"
    ∷ constant "DPP_PB_RESULT" "DPP-PB-RESULT"
    ∷ constant "DPP_RELAY_NEEDS_CONTROLLER" "DPP-RELAY-NEEDS-CONTROLLER"
    ∷ []

-- Hotspot 2.0.
abbrev pub hotspot_names : List Constant
hotspot_names =
    constant "HS20_DEAUTH_IMMINENT_NOTICE" "HS20-DEAUTH-IMMINENT-NOTICE"
    ∷ constant "HS20_T_C_ACCEPTANCE" "HS20-T-C-ACCEPTANCE"
    ∷ constant "HS20_T_C_FILTERING_ADD" "HS20-T-C-FILTERING-ADD"
    ∷ constant "HS20_T_C_FILTERING_REMOVE" "HS20-T-C-FILTERING-REMOVE"
    ∷ []

-- 802.11u interworking.
abbrev pub interworking_names : List Constant
interworking_names =
    constant "INTERWORKING_AP" "INTERWORKING-AP"
    ∷ constant "INTERWORKING_BLACKLISTED" "INTERWORKING-BLACKLISTED"
    ∷ constant "INTERWORKING_NO_MATCH" "INTERWORKING-NO-MATCH"
    ∷ constant "INTERWORKING_ALREADY_CONNECTED" "INTERWORKING-ALREADY-CONNECTED"
    ∷ constant "INTERWORKING_SELECTED" "INTERWORKING-SELECTED"
    ∷ []

-- Access Network Query Protocol.
abbrev pub anqp_names : List Constant
anqp_names = constant "ANQP_QUERY_DONE" "ANQP-QUERY-DONE" ∷ []

-- Generic Advertisement Service.
abbrev pub gas_names : List Constant
gas_names =
    constant "GAS_RESPONSE_INFO" "GAS-RESPONSE-INFO"
    ∷ constant "GAS_QUERY_START" "GAS-QUERY-START"
    ∷ constant "GAS_QUERY_DONE" "GAS-QUERY-DONE"
    ∷ []

-- Received frames of interest.
abbrev pub frames_names : List Constant
frames_names =
    constant "RX_ANQP" "RX-ANQP"
    ∷ constant "RX_HS20_ANQP" "RX-HS20-ANQP"
    ∷ constant "RX_HS20_ANQP_ICON" "RX-HS20-ANQP-ICON"
    ∷ constant "RX_HS20_ICON" "RX-HS20-ICON"
    ∷ constant "RX_MBO_ANQP" "RX-MBO-ANQP"
    ∷ constant "RX_VENUE_URL" "RX-VENUE-URL"
    ∷ constant "RX_PROBE_REQUEST" "RX-PROBE-REQUEST"
    ∷ []
