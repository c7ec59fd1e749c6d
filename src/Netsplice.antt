-- ===== src/Netsplice.antt =====
-- netsplice-echo-proxy/splicetest/funny: a TCP proxy that moves bytes by splice(2).
pub mod Pipe
pub mod NetPd
pub mod Splice
pub mod Proxy
mod Tests
