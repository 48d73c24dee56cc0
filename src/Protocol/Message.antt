-- ===== src/Protocol/Message.antt =====
-- IO/reactor/protocol.hpp: `request` and `response`, in the text format of the `MYSELF` build and
-- in the JSON format of the default build.
pub mod Text
pub mod Json
pub mod Codec
