-- ===== src/Channel.antt =====
-- irc/channel.go: channels, their members, privileges, modes and registration.
pub mod State
pub mod Access
pub mod Membership
pub mod Invites
pub mod Speaking
pub mod Registration
pub mod Storage
pub mod ModeChanges
