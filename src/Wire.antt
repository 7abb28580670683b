-- ===== src/Wire.antt =====
-- The request path from end to end: `sendCommand` (client/exe/client.go) and `ParseCommand`
-- (parser/parser.go).
pub mod Lines
pub mod Request
pub mod Session
pub mod Frame
pub mod Answers
pub mod Body
pub mod Applications
pub mod Attributes
