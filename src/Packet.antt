-- ===== src/Packet.antt =====
-- src/packet.c: packets, the growing byte buffers that network data is read from and written to.
pub mod Buffer
pub mod Slot
pub mod Header
pub mod Varint
pub mod Unread
pub mod Write
pub mod Read
pub mod Finalize
pub mod RoundTrip
