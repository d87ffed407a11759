-- ===== src/Websocket.antt =====
-- include/websocket and source/websocket: the session of a client and the handles of a session.
pub mod Handles
pub mod Session
pub mod ServerSession
pub mod Server
pub mod Tests
