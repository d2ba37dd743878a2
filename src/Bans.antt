-- ===== src/Bans.antt =====
-- Bans by address (irc/dline.go) and by mask (irc/kline.go).
pub mod Info
pub mod Dline
pub mod Kline
