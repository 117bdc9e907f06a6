-- ===== src/Replies.antt =====
-- wpa_ctrl/replies.py: what the daemon's replies parse into.
pub mod Parse
pub mod Mask
pub mod Fields
pub mod Rows
pub mod Address
pub mod Signal
pub mod Bss
pub mod Printed
pub mod Readings
