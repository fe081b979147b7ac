-- ===== src/Socket.antt =====
-- The sockets above the routing: requests and replies.
pub mod Dealer
pub mod Network
pub mod Rep
pub mod Req
pub mod Router
pub mod Session
mod Tests
