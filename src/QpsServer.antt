-- ===== src/QpsServer.antt =====
-- qps-http-app-server/qps-http-app-server.go: the server that a load test of HTTP talks to.
pub mod Event
pub mod Status
pub mod Conn
pub mod Stream
pub mod Response
pub mod Header
pub mod Request
pub mod Handler
pub mod Server
pub mod Listen
pub mod Args
mod Tests
