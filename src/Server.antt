-- ===== src/Server.antt =====
-- server/server.go: the command handlers and the loop over a connection. The parts are in the
-- children: `State` (the server and what it answers), `Filters`, `Listing` (list and list-next),
-- `Launch` (run), `Settings` (lang and reindex), `Dispatch` (executeCommand, handleConnection).
pub mod State
pub mod Outcomes
pub mod Filters
pub mod Listing
pub mod Launch
pub mod Settings
pub mod Dispatch
pub mod Answers
pub mod Lifecycle
