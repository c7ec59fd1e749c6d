-- ===== src/TcpEngine.antt =====
-- tcpengine/tcpengine.go: a TCP load engine with a limit on concurrent connections.
pub mod Engine
pub mod Server
pub mod Client
pub mod Rate
pub mod Options
pub mod Start
pub mod Shutdown
pub mod Hosts
mod Tests
