-- ===== src/Event/Names.antt =====
-- The table of event names of wpa_ctrl/events.py.
mod Connection
mod Peers
mod Provisioning
mod Radio
pub mod Known
pub use wpa_ctrl_py.Text.Constants.{Constant}
pub use Connection.*
pub use Peers.*
pub use Provisioning.*
pub use Radio.*
use wpa_ctrl_py.Base.{List, [], ◌∷◌, ◌++◌}

abbrev concat : List (List Constant) → List Constant
concat [] = []
concat (part ∷ parts) = part ++ concat parts

-- All of them.
abbrev pub event_names : List Constant
event_names = concat (
    supplicant_names ∷ wps_names ∷ access_point_names ∷ opmode_names ∷ wds_names ∷ p2p_names
    ∷ p2p_services_names ∷ proximity_ranging_names ∷ nan_names ∷ mesh_names ∷ dpp_names
    ∷ hotspot_names ∷ interworking_names ∷ anqp_names ∷ gas_names ∷ frames_names
    ∷ radio_measurement_names ∷ beacon_reports_names ∷ link_measurement_names ∷ multi_band_names
    ∷ bss_transition_names ∷ interference_names ∷ dfs_names ∷ channel_selection_names
    ∷ frequency_coordination_names ∷ credentials_names ∷ traffic_names ∷ pmksa_names
    ∷ interface_state_names ∷ radio_work_names ∷ eap_names ∷ fils_names ∷ ibss_names ∷ ess_names
    ∷ channel_validation_names ∷ pasn_names ∷ transition_names ∷ wfa_names ∷ [])
