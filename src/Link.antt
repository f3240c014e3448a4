-- ===== src/Link.antt =====
-- One packet over one connection, as both ends send and receive it.
pub mod Packets
pub mod Framing
pub mod Delivery
