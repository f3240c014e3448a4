-- ===== src/Host/AccessUnits.antt =====
-- `loadH264TestStream` of host_bridge/tools/host_bridge_demo.cpp: an Annex-B file in access units.
pub mod Slice
pub mod Split
pub mod Codes
pub mod Load
pub mod Whole
pub mod Sends
pub mod Golomb
