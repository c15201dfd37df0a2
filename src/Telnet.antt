-- ===== src/Telnet.antt =====
-- backend/src/telnet/telnet_session.cpp: the Telnet client session.
pub mod Codec
pub mod Parser
pub mod Login
pub mod Once
pub mod Session
pub mod Delivery
pub mod RoundTrip
pub mod Negotiation
mod Tests
