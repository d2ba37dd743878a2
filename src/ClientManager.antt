-- ===== src/ClientManager.antt =====
-- irc/client_lookup_set.go: who holds which nickname. A client is known by its address, a number; the
-- part of Client (irc/client.go) that is read or written here is a record of its own. Casefolding, the
-- accounts and the configured patterns are the parameter `Names`.
pub mod State
pub mod SetNick
mod Tables
pub mod Consistency
pub mod Uniqueness
