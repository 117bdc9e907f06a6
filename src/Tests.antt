-- ===== src/Tests.antt =====
-- Runs of the library on concrete values.
mod Ssid
mod Security
mod Dpp
mod Events
mod Replies
mod Transport
mod Client
mod Commands
mod Compat
mod Discovery
