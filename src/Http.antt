-- ===== src/Http.antt =====
-- http_t: a server of files over HTTP.
pub mod Request
pub mod Answer
pub mod Framing
pub mod Files
mod Tests
