-- ===== src/Socket.antt =====
-- The sockets under host_bridge/src/tcp_server.cpp and
-- quest_client/app/src/main/cpp/transport.cpp, and the exact reads and writes over them.
pub mod Api
pub mod Exact
pub mod Reading
pub mod Writing
