-- ===== src/Transport.antt =====
-- wpa_ctrl/transport.py: the datagram connection to a control socket, over a model of the system
-- calls that it makes.
pub mod World
pub mod Exec
pub mod Socket
