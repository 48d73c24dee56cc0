-- ===== src/Multiplex.antt =====
-- IO/select_server, IO/poll_server and IO/epoll_server: servers that answer each line on its own.
pub mod Call
pub mod Slots
pub mod Sock
pub mod Select
pub mod Poll
pub mod Epoll
mod Tests
mod PollTests
