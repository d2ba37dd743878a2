-- ===== src/Limits.antt =====
-- The limits on what a client or an address may do in a time: the fixed windows of
-- irc/connection_limits/throttler.go and the delays of irc/fakelag.go. A time and a duration are
-- numbers of nanoseconds, and a negative difference is 0: neither package uses how negative it is.
pub mod Throttle
pub mod Fakelag
pub mod Flatip
pub mod Connections
