-- ===== src/Ssid.antt =====
-- wpa_ctrl/ssid.py: the spellings of octet strings and secrets.
pub mod Decode
pub mod Printf
pub mod Config
pub mod Quote
