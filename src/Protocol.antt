-- ===== src/Protocol.antt =====
-- IO/reactor/protocol.hpp: the message format that the calculator's clients and servers speak.
pub mod Frame
pub mod Decimal
pub mod Message
mod FlatJson
mod Tests
