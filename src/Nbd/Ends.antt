-- ===== src/Nbd/Ends.antt =====
-- `transmission_phase` (servers/nbd/protocol.c) and `protocol_handshake` come to an end, whatever
-- the client sends and the plugin answers.
pub mod Pace
pub mod Reading
pub mod Writing
pub mod Transmission
pub mod Options
pub mod Handshake
