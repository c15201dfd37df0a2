-- ===== src/Authenticator.antt =====
-- backend/src/authenticator/authenticator_service.cpp: one-time passwords.
pub mod Base32
pub mod Totp
pub mod Entries
mod Tests
