-- ===== src/FastServer.antt =====
-- The HTTP server of fasthttpserver/fasthttpserver.go: its parsers, the state machine of a
-- connection, the loop that accepts, and the goroutine that counts.
pub mod Parse
pub mod State
pub mod Sending
pub mod Receiving
pub mod Service
pub mod Worker
pub mod Counter
mod Tests
