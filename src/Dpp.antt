-- ===== src/Dpp.antt =====
-- wpa_ctrl/dpp.py: the parameters of DPP commands and the channel spelling. Its event views stand with
-- those of wpa_ctrl/events.py.
pub mod Params
pub mod Channel
pub mod Configurator
