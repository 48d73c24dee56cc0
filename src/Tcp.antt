-- ===== src/Tcp.antt =====
-- tcp_t/protocol_cus: the calculator server with a thread for each client.
pub mod Receive
pub mod Session
pub mod Stream
pub mod Ends
pub mod Shared
pub mod Client
pub mod Conversation
pub mod Threaded
mod Tests
