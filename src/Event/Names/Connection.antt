-- ===== src/Event/Names/Connection.antt =====
-- The event names of wpa_ctrl/events.py, section by section: wpa_supplicant and access points.
use wpa_ctrl_py.Base.{List, [], ◌∷◌}
use wpa_ctrl_py.Text.Constants.{Constant, constant}

-- Wpa_supplicant's own state changes, and its requests for information from the user.
abbrev pub supplicant_names : List Constant
supplicant_names =
    constant "CTRL_REQ" "CTRL-REQ-"
    ∷ constant "CTRL_RSP" "CTRL-RSP-"
    ∷ constant "CTRL_EVENT_CONNECTED" "CTRL-EVENT-CONNECTED"
    ∷ constant "CTRL_EVENT_DISCONNECTED" "CTRL-EVENT-DISCONNECTED"
    ∷ constant "CTRL_EVENT_ASSOC_REJECT" "CTRL-EVENT-ASSOC-REJECT"
    ∷ constant "CTRL_EVENT_AUTH_REJECT" "CTRL-EVENT-AUTH-REJECT"
    ∷ constant "CTRL_EVENT_TERMINATING" "CTRL-EVENT-TERMINATING"
    ∷ constant "CTRL_EVENT_PASSWORD_CHANGED" "CTRL-EVENT-PASSWORD-CHANGED"
    ∷ constant "CTRL_EVENT_EAP_NOTIFICATION" "CTRL-EVENT-EAP-NOTIFICATION"
    ∷ constant "CTRL_EVENT_EAP_STARTED" "CTRL-EVENT-EAP-STARTED"
    ∷ constant "CTRL_EVENT_EAP_PROPOSED_METHOD" "CTRL-EVENT-EAP-PROPOSED-METHOD"
    ∷ constant "CTRL_EVENT_EAP_METHOD" "CTRL-EVENT-EAP-METHOD"
    ∷ constant "CTRL_EVENT_EAP_PEER_CERT" "CTRL-EVENT-EAP-PEER-CERT"
    ∷ constant "CTRL_EVENT_EAP_PEER_ALT" "CTRL-EVENT-EAP-PEER-ALT"
    ∷ constant "CTRL_EVENT_EAP_TLS_CERT_ERROR" "CTRL-EVENT-EAP-TLS-CERT-ERROR"
    ∷ constant "CTRL_EVENT_EAP_STATUS" "CTRL-EVENT-EAP-STATUS"
    ∷ constant "CTRL_EVENT_EAP_RETRANSMIT" "CTRL-EVENT-EAP-RETRANSMIT"
    ∷ constant "CTRL_EVENT_EAP_RETRANSMIT2" "CTRL-EVENT-EAP-RETRANSMIT2"
    ∷ constant "CTRL_EVENT_EAP_SUCCESS" "CTRL-EVENT-EAP-SUCCESS"
    ∷ constant "CTRL_EVENT_EAP_SUCCESS2" "CTRL-EVENT-EAP-SUCCESS2"
    ∷ constant "CTRL_EVENT_EAP_FAILURE" "CTRL-EVENT-EAP-FAILURE"
    ∷ constant "CTRL_EVENT_EAP_FAILURE2" "CTRL-EVENT-EAP-FAILURE2"
    ∷ constant "CTRL_EVENT_EAP_TIMEOUT_FAILURE" "CTRL-EVENT-EAP-TIMEOUT-FAILURE"
    ∷ constant "CTRL_EVENT_EAP_TIMEOUT_FAILURE2" "CTRL-EVENT-EAP-TIMEOUT-FAILURE2"
    ∷ constant "CTRL_EVENT_SSID_TEMP_DISABLED" "CTRL-EVENT-SSID-TEMP-DISABLED"
    ∷ constant "CTRL_EVENT_SSID_REENABLED" "CTRL-EVENT-SSID-REENABLED"
    ∷ constant "CTRL_EVENT_SCAN_STARTED" "CTRL-EVENT-SCAN-STARTED"
    ∷ constant "CTRL_EVENT_SCAN_RESULTS" "CTRL-EVENT-SCAN-RESULTS"
    ∷ constant "CTRL_EVENT_SCAN_FAILED" "CTRL-EVENT-SCAN-FAILED"
    ∷ constant "CTRL_EVENT_STATE_CHANGE" "CTRL-EVENT-STATE-CHANGE"
    ∷ constant "CTRL_EVENT_BSS_ADDED" "CTRL-EVENT-BSS-ADDED"
    ∷ constant "CTRL_EVENT_BSS_REMOVED" "CTRL-EVENT-BSS-REMOVED"
    ∷ constant "CTRL_EVENT_NETWORK_NOT_FOUND" "CTRL-EVENT-NETWORK-NOT-FOUND"
    ∷ constant "CTRL_EVENT_SIGNAL_CHANGE" "CTRL-EVENT-SIGNAL-CHANGE"
    ∷ constant "CTRL_EVENT_BEACON_LOSS" "CTRL-EVENT-BEACON-LOSS"
    ∷ constant "CTRL_EVENT_REGDOM_CHANGE" "CTRL-EVENT-REGDOM-CHANGE"
    ∷ constant "CTRL_EVENT_REGDOM_BEACON_HINT" "CTRL-EVENT-REGDOM-BEACON-HINT"
    ∷ constant "CTRL_EVENT_STARTED_CHANNEL_SWITCH" "CTRL-EVENT-STARTED-CHANNEL-SWITCH"
    ∷ constant "CTRL_EVENT_CHANNEL_SWITCH" "CTRL-EVENT-CHANNEL-SWITCH"
    ∷ constant "CTRL_EVENT_LINK_CHANNEL_SWITCH" "CTRL-EVENT-LINK-CHANNEL-SWITCH"
    ∷ constant "CTRL_EVENT_UNPROT_BEACON" "CTRL-EVENT-UNPROT-BEACON"
    ∷ constant "CTRL_EVENT_DO_ROAM" "CTRL-EVENT-DO-ROAM"
    ∷ constant "CTRL_EVENT_SKIP_ROAM" "CTRL-EVENT-SKIP-ROAM"
    ∷ constant "CTRL_EVENT_T2LM_UPDATE" "CTRL-EVENT-T2LM-UPDATE"
    ∷ constant "CTRL_EVENT_LINK_RECONFIG" "CTRL-EVENT-LINK-RECONFIG"
    ∷ constant "CTRL_EVENT_LINK_STA_REMOVED" "CTRL-EVENT-LINK-STA-REMOVED"
    ∷ constant "CTRL_EVENT_LINK_STA_ADDED" "CTRL-EVENT-LINK-STA-ADDED"
    ∷ constant "CTRL_EVENT_SUBNET_STATUS_UPDATE" "CTRL-EVENT-SUBNET-STATUS-UPDATE"
    ∷ constant "CTRL_EVENT_FREQ_CONFLICT" "CTRL-EVENT-FREQ-CONFLICT"
    ∷ constant "CTRL_EVENT_AVOID_FREQ" "CTRL-EVENT-AVOID-FREQ"
    ∷ constant "CTRL_EVENT_NETWORK_ADDED" "CTRL-EVENT-NETWORK-ADDED"
    ∷ constant "CTRL_EVENT_NETWORK_REMOVED" "CTRL-EVENT-NETWORK-REMOVED"
    ∷ constant "CTRL_EVENT_MSCS_RESULT" "CTRL-EVENT-MSCS-RESULT"
    ∷ constant "CTRL_EVENT_SCS_RESULT" "CTRL-EVENT-SCS-RESULT"
    ∷ constant "CTRL_EVENT_DSCP_POLICY" "CTRL-EVENT-DSCP-POLICY"
    ∷ []

-- Wi-Fi Protected Setup.
abbrev pub wps_names : List Constant
wps_names =
    constant "WPS_OVERLAP_DETECTED" "WPS-OVERLAP-DETECTED"
    ∷ constant "WPS_AP_AVAILABLE_PBC" "WPS-AP-AVAILABLE-PBC"
    ∷ constant "WPS_AP_AVAILABLE_AUTH" "WPS-AP-AVAILABLE-AUTH"
    ∷ constant "WPS_AP_AVAILABLE_PIN" "WPS-AP-AVAILABLE-PIN"
    ∷ constant "WPS_AP_AVAILABLE" "WPS-AP-AVAILABLE"
    ∷ constant "WPS_CRED_RECEIVED" "WPS-CRED-RECEIVED"
    ∷ constant "WPS_M2D" "WPS-M2D"
    ∷ constant "WPS_FAIL" "WPS-FAIL"
    ∷ constant "WPS_SUCCESS" "WPS-SUCCESS"
    ∷ constant "WPS_TIMEOUT" "WPS-TIMEOUT"
    ∷ constant "WPS_PBC_ACTIVE" "WPS-PBC-ACTIVE"
    ∷ constant "WPS_PBC_DISABLE" "WPS-PBC-DISABLE"
    ∷ constant "WPS_ENROLLEE_SEEN" "WPS-ENROLLEE-SEEN"
    ∷ constant "WPS_OPEN_NETWORK" "WPS-OPEN-NETWORK"
    ∷ constant "WPS_ER_AP_ADD" "WPS-ER-AP-ADD"
    ∷ constant "WPS_ER_AP_REMOVE" "WPS-ER-AP-REMOVE"
    ∷ constant "WPS_ER_ENROLLEE_ADD" "WPS-ER-ENROLLEE-ADD"
    ∷ constant "WPS_ER_ENROLLEE_REMOVE" "WPS-ER-ENROLLEE-REMOVE"
    ∷ constant "WPS_ER_AP_SETTINGS" "WPS-ER-AP-SETTINGS"
    ∷ constant "WPS_ER_AP_SET_SEL_REG" "WPS-ER-AP-SET-SEL-REG"
    ∷ constant "WPS_PIN_NEEDED" "WPS-PIN-NEEDED"
    ∷ constant "WPS_NEW_AP_SETTINGS" "WPS-NEW-AP-SETTINGS"
    ∷ constant "WPS_REG_SUCCESS" "WPS-REG-SUCCESS"
    ∷ constant "WPS_AP_SETUP_LOCKED" "WPS-AP-SETUP-LOCKED"
    ∷ constant "WPS_AP_SETUP_UNLOCKED" "WPS-AP-SETUP-UNLOCKED"
    ∷ constant "WPS_AP_PIN_ENABLED" "WPS-AP-PIN-ENABLED"
    ∷ constant "WPS_AP_PIN_DISABLED" "WPS-AP-PIN-DISABLED"
    ∷ constant "WPS_PIN_ACTIVE" "WPS-PIN-ACTIVE"
    ∷ constant "WPS_CANCEL" "WPS-CANCEL"
    ∷ []

-- Hostapd, and wpa_supplicant acting as an AP.
abbrev pub access_point_names : List Constant
access_point_names =
    constant "AP_STA_CONNECTED" "AP-STA-CONNECTED"
    ∷ constant "AP_STA_DISCONNECTED" "AP-STA-DISCONNECTED"
    ∷ constant "AP_STA_POSSIBLE_PSK_MISMATCH" "AP-STA-POSSIBLE-PSK-MISMATCH"
    ∷ constant "AP_STA_POLL_OK" "AP-STA-POLL-OK"
    ∷ constant "AP_REJECTED_MAX_STA" "AP-REJECTED-MAX-STA"
    ∷ constant "AP_REJECTED_BLOCKED_STA" "AP-REJECTED-BLOCKED-STA"
    ∷ constant "AP_ENABLED" "AP-ENABLED"
    ∷ constant "AP_DISABLED" "AP-DISABLED"
    ∷ constant "AP_NO_IR" "AP-NO_IR"
    ∷ constant "AP_CSA_FINISHED" "AP-CSA-FINISHED"
    ∷ constant "AP_MGMT_FRAME_RECEIVED" "AP-MGMT-FRAME-RECEIVED"
    ∷ []

-- Station mode changes reported by an AP.
abbrev pub opmode_names : List Constant
opmode_names =
    constant "STA_OPMODE_MAX_BW_CHANGED" "STA-OPMODE-MAX-BW-CHANGED"
    ∷ constant "STA_OPMODE_SMPS_MODE_CHANGED" "STA-OPMODE-SMPS-MODE-CHANGED"
    ∷ constant "STA_OPMODE_N_SS_CHANGED" "STA-OPMODE-N_SS-CHANGED"
    ∷ []

-- 4-address WDS links.
abbrev pub wds_names : List Constant
wds_names =
    constant "WDS_STA_INTERFACE_ADDED" "WDS-STA-INTERFACE-ADDED"
    ∷ constant "WDS_STA_INTERFACE_REMOVED" "WDS-STA-INTERFACE-REMOVED"
    ∷ []
