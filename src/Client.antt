-- ===== src/Client.antt =====
-- client/exe/client.go: what the client sends, and how it reads the answers.
pub mod Send
pub mod Receive
pub mod Calls
pub mod Socket
pub mod Total
pub mod Connect
pub mod Sharing
