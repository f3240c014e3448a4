-- ===== src/Host.antt =====
-- The host's demo bridge, host_bridge/tools/host_bridge_demo.cpp: the video payloads that it makes,
-- its statistics of acknowledged frames, and the pace of its video thread.
pub mod Payloads
pub mod AccessUnits
pub mod Delivery
pub mod Stats
pub mod Pacing
pub mod Callback
pub mod Reports
pub mod Replies
