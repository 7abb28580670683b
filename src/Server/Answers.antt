-- ===== src/Server/Answers.antt =====
-- server/server.go: the answers, as the client takes them apart.
pub mod Texts
pub mod Commands
pub mod Listed
pub mod Clean
pub mod Session
pub mod Interleaved
