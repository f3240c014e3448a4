-- ===== src/Protocol.antt =====
-- proto/quest3_teleop_protocol.h: constants, packet types and the two fixed headers. A `std::string`
-- or a byte array is a list of byte values; a struct that is copied by `std::memcpy` is laid out
-- field by field, little-endian and without padding, as the `static_assert`s on its size demand.
pub mod Wire
pub mod Types
pub mod RoundTrip
pub mod KeyValue
