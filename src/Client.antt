-- ===== src/Client.antt =====
-- wpa_ctrl/client.py: the connection that sends commands and sets events aside.
pub mod State
pub mod Request
pub mod Events
pub mod Stream
pub mod Commands
