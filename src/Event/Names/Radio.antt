-- ===== src/Event/Names/Radio.antt =====
-- The event names of wpa_ctrl/events.py, section by section: radio resources and the rest.
use wpa_ctrl_py.Base.{List, [], ◌∷◌}
use wpa_ctrl_py.Text.Constants.{Constant, constant}

-- Radio resource measurement.
abbrev pub radio_measurement_names : List Constant
radio_measurement_names =
    constant "RRM_NEIGHBOR_REP_RECEIVED" "RRM-NEIGHBOR-REP-RECEIVED"
    ∷ constant "RRM_NEIGHBOR_REP_REQUEST_FAILED" "RRM-NEIGHBOR-REP-REQUEST-FAILED"
    ∷ []

-- Beacon reports.
abbrev pub beacon_reports_names : List Constant
beacon_reports_names =
    constant "BEACON_REQ_TX_STATUS" "BEACON-REQ-TX-STATUS"
    ∷ constant "BEACON_RESP_RX" "BEACON-RESP-RX"
    ∷ []

-- Link measurement.
abbrev pub link_measurement_names : List Constant
link_measurement_names = constant "LINK_MSR_RESP_RX" "LINK-MSR-RESP-RX" ∷ []

-- Multi Band Operation.
abbrev pub multi_band_names : List Constant
multi_band_names =
    constant "MBO_CELL_PREFERENCE" "MBO-CELL-PREFERENCE"
    ∷ constant "MBO_TRANSITION_REASON" "MBO-TRANSITION-REASON"
    ∷ []

-- BSS transition management.
abbrev pub bss_transition_names : List Constant
bss_transition_names =
    constant "BSS_TM_QUERY" "BSS-TM-QUERY" ∷ constant "BSS_TM_RESP" "BSS-TM-RESP" ∷ []

-- Co-located interference reporting.
abbrev pub interference_names : List Constant
interference_names =
    constant "COLOC_INTF_REQ" "COLOC-INTF-REQ"
    ∷ constant "COLOC_INTF_REPORT" "COLOC-INTF-REPORT"
    ∷ []

-- Dynamic frequency selection.
abbrev pub dfs_names : List Constant
dfs_names =
    constant "DFS_RADAR_DETECTED" "DFS-RADAR-DETECTED"
    ∷ constant "DFS_NEW_CHANNEL" "DFS-NEW-CHANNEL"
    ∷ constant "DFS_CAC_START" "DFS-CAC-START"
    ∷ constant "DFS_CAC_COMPLETED" "DFS-CAC-COMPLETED"
    ∷ constant "DFS_NOP_FINISHED" "DFS-NOP-FINISHED"
    ∷ constant "DFS_PRE_CAC_EXPIRED" "DFS-PRE-CAC-EXPIRED"
    ∷ []

-- Automatic channel selection.
abbrev pub channel_selection_names : List Constant
channel_selection_names =
    constant "ACS_STARTED" "ACS-STARTED"
    ∷ constant "ACS_COMPLETED" "ACS-COMPLETED"
    ∷ constant "ACS_FAILED" "ACS-FAILED"
    ∷ []

-- Automated frequency coordination.
abbrev pub frequency_coordination_names : List Constant
frequency_coordination_names =
    constant "AFC_EVENT_RECEIVED" "AFC-EVENT-RECEIVED"
    ∷ constant "AFC_EVENT_COMPLETE" "AFC-EVENT-COMPLETE"
    ∷ []

-- Credential changes.
abbrev pub credentials_names : List Constant
credentials_names =
    constant "CRED_ADDED" "CRED-ADDED"
    ∷ constant "CRED_MODIFIED" "CRED-MODIFIED"
    ∷ constant "CRED_REMOVED" "CRED-REMOVED"
    ∷ []

-- Traffic specification.
abbrev pub traffic_names : List Constant
traffic_names =
    constant "TSPEC_ADDED" "TSPEC-ADDED"
    ∷ constant "TSPEC_REMOVED" "TSPEC-REMOVED"
    ∷ constant "TSPEC_REQ_FAILED" "TSPEC-REQ-FAILED"
    ∷ []

-- PMKSA cache.
abbrev pub pmksa_names : List Constant
pmksa_names =
    constant "PMKSA_CACHE_ADDED" "PMKSA-CACHE-ADDED"
    ∷ constant "PMKSA_CACHE_REMOVED" "PMKSA-CACHE-REMOVED"
    ∷ []

-- Interface state.
abbrev pub interface_state_names : List Constant
interface_state_names =
    constant "INTERFACE_ENABLED" "INTERFACE-ENABLED"
    ∷ constant "INTERFACE_DISABLED" "INTERFACE-DISABLED"
    ∷ []

-- Externally scheduled radio work.
abbrev pub radio_work_names : List Constant
radio_work_names =
    constant "EXT_RADIO_WORK_START" "EXT-RADIO-WORK-START"
    ∷ constant "EXT_RADIO_WORK_TIMEOUT" "EXT-RADIO-WORK-TIMEOUT"
    ∷ []

-- EAP layer.
abbrev pub eap_names : List Constant
eap_names = constant "EAP_ERROR_CODE" "EAP-ERROR-CODE" ∷ []

-- Fast initial link setup.
abbrev pub fils_names : List Constant
fils_names = constant "FILS_HLP_RX" "FILS-HLP-RX" ∷ []

-- IBSS RSN.
abbrev pub ibss_names : List Constant
ibss_names = constant "IBSS_RSN_COMPLETED" "IBSS-RSN-COMPLETED" ∷ []

-- ESS disassociation.
abbrev pub ess_names : List Constant
ess_names = constant "ESS_DISASSOC_IMMINENT" "ESS-DISASSOC-IMMINENT" ∷ []

-- Operating channel validation.
abbrev pub channel_validation_names : List Constant
channel_validation_names = constant "OCV_FAILURE" "OCV-FAILURE" ∷ []

-- Pre-association security negotiation.
abbrev pub pasn_names : List Constant
pasn_names = constant "PASN_AUTH_STATUS" "PASN-AUTH-STATUS" ∷ []

-- Transition disable.
abbrev pub transition_names : List Constant
transition_names = constant "TRANSITION_DISABLE" "TRANSITION-DISABLE" ∷ []

-- Wi-Fi Alliance capability signalling.
abbrev pub wfa_names : List Constant
wfa_names = constant "WFA_GEN_CAPAB" "WFA-GEN-CAPAB" ∷ []
