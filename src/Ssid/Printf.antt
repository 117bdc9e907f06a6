-- ===== src/Ssid/Printf.antt =====
-- What `printf_decode` reads: the dialect that its comment describes, and its totality.
pub mod Loop
pub mod Dialect
pub mod Total
pub mod Escape
