-- ===== src/Websocket.antt =====
-- websocket/: connections, their pumps and the hub.
pub mod Client
pub mod Hub
pub mod Broadcast
pub mod Pumps
mod Tests
