-- ===== src/Service.antt =====
-- IO/reactor/test.cc: the callbacks that the reactor server hands a connection's buffers to.
pub mod Calculator
mod Tests
