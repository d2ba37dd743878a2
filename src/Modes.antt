-- ===== src/Modes.antt =====
-- irc/modes/modes.go: the mode letters, mode sets, mode changes and their parsing; and the order of
-- the channel-user modes (irc/modes.go, irc/channel.go).
pub mod Letters
pub mod ModeSet
pub mod Privileges
pub mod Parse
