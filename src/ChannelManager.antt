-- ===== src/ChannelManager.antt =====
-- irc/channelmanager.go: the channels of the server by name, and how they come and go.
pub mod State
pub mod Operations
pub mod Registry
pub mod Leaving
