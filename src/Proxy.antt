-- ===== src/Proxy.antt =====
-- src/proxy: the relay between a client and an upstream server.
pub mod Framing
pub mod Gate
pub mod Spoof
pub mod Span
pub mod Outbound
