-- ===== src/Chat.antt =====
-- udp_t/chatroom_udp: a chat room over UDP.
pub mod Users
pub mod Room
pub mod Table
pub mod Members
mod Tests
