-- ===== src/Client/Commands.antt =====
-- The commands of `WpaCtrl` in wpa_ctrl/client.py: what each sends, and how it reads the reply.
pub mod Wording
pub mod Accepted
pub mod Station
pub mod Networks
pub mod P2p
pub mod Easy
pub mod Walks
pub mod Serving
pub mod Sending
pub mod Pages
pub mod Carried
