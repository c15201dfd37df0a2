-- ===== src/BrowserShare.antt =====
-- backend/src/serial/browser_serial_share_service.cpp: a browser's serial port shared with other
-- clients. Each method runs its part of the state under the service's mutex, so a method is one step.
-- A WebSocket connection is a number; `exists` says which objects a weak_ptr still locks, `connected`
-- what connected() answers. The messages to send and the calls of the plugin service are the second
-- result, in their order. NextSubscriptionId is an argument where it is called; the JSON texts are
-- constructors.
pub mod State
pub mod Publishing
pub mod Subscribing
pub mod Consistent
pub mod Keeps
pub mod Reach
pub mod Access
mod Tests
