-- ===== src/MidLevel.antt =====
-- src/mid_level: the router, and the wire protocol of the socket.
pub mod Router
pub mod Wire
pub mod Ipc
pub mod Tests
