-- ===== src/Server.antt =====
-- host_bridge/src/tcp_server.cpp: the class `TcpServer`.
pub mod Defs
pub mod Stream
pub mod Sending
pub mod Lifecycle
