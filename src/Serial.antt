-- ===== src/Serial.antt =====
-- backend/src/serial/serial_service.cpp: the serial ports of the server's machine. The service's mutex
-- makes Attach and Detach one step each; the worker of a session takes the steps of Session.
pub mod Session
pub mod Service
pub mod Bounds
pub mod Release
pub mod Reach
mod Tests
