-- ===== src/Protocol/KeyValue.antt =====
-- The `key=value;…` texts that packets carry: `findKeyValue` of proto/quest3_teleop_protocol.h, and
-- `parseKeyValuePayload` and `getValue` of host_bridge/tools/host_bridge_demo.cpp. The offset
-- `start` of the source is the suffix of the payload that begins there.
pub mod Defs
pub mod Fields
pub mod Agree
pub mod Format
pub mod Report
