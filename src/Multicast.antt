-- ===== src/Multicast.antt =====
-- multicast/c/mcast4.c: the server and the client of a multicast group.
pub mod Server
pub mod Client
pub mod Options
pub mod Six
mod Tests
