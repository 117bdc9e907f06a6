-- ===== src/Replies/Mask.antt =====
-- The class `BssMask` of wpa_ctrl/replies.py: which fields the BSS command is to give.
use wpa_ctrl_py.Base.{ℕ, List, [], ◌∷◌}
use wpa_ctrl_py.Text.{Text}
use wpa_ctrl_py.Text.Constants.{number}

-- The bits, in the order of the class.
abbrev pub bss_mask : List (Text × ℕ)
bss_mask =
    number "ID" 0x0000_0001
    ∷ number "BSSID" 0x0000_0002
    ∷ number "FREQ" 0x0000_0004
    ∷ number "BEACON_INT" 0x0000_0008
    ∷ number "CAPABILITIES" 0x0000_0010
    ∷ number "QUAL" 0x0000_0020
    ∷ number "NOISE" 0x0000_0040
    ∷ number "LEVEL" 0x0000_0080
    ∷ number "TSF" 0x0000_0100
    ∷ number "AGE" 0x0000_0200
    ∷ number "IE" 0x0000_0400
    ∷ number "FLAGS" 0x0000_0800
    ∷ number "SSID" 0x0000_1000
    ∷ number "WPS_SCAN" 0x0000_2000
    ∷ number "P2P_SCAN" 0x0000_4000
    ∷ number "INTERNETW" 0x0000_8000
    ∷ number "WIFI_DISPLAY" 0x0001_0000
    ∷ number "DELIM" 0x0002_0000
    ∷ number "MESH_SCAN" 0x0004_0000
    ∷ number "SNR" 0x0008_0000
    ∷ number "EST_THROUGHPUT" 0x0010_0000
    ∷ number "FST" 0x0020_0000
    ∷ number "UPDATE_IDX" 0x0040_0000
    ∷ number "BEACON_IE" 0x0080_0000
    ∷ number "FILS_INDICATION" 0x0100_0000
    ∷ number "RNR" 0x0200_0000
    ∷ number "ML" 0x0400_0000
    ∷ number "AP_MLD_ADDR" 0x0800_0000
    ∷ []

abbrev pub bss_mask_all : ℕ
bss_mask_all = 0xfffd_ffff
