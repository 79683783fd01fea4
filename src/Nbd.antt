-- ===== src/Nbd.antt =====
-- servers/nbd: the NBD protocol over the transport callbacks.
pub mod Wire
pub mod Errno
pub mod Context
pub mod Phase
pub mod Medium
pub mod Read
pub mod Write
pub mod Transmission
pub mod Handshake
pub mod Ends
pub mod Client
pub mod Handles
