-- ===== src/Examples.antt =====
-- Small channels, clients and tables on which the theorems about the server are run.
mod Setting
mod Modes
mod Channels
mod Clients
mod Limits
mod Manager
mod Histories
mod ModeChanges
mod Connections
mod Registry
mod Bans
mod Users
mod Lines
