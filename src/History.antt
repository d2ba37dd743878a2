-- ===== src/History.antt =====
-- irc/history: the buffers in which the server keeps what was said, and the queries on them.
pub mod Buffer
pub mod Growth
pub mod Queries
