-- ===== src/Client.antt =====
-- The transport thread of the client, quest_client/app/src/main/cpp/native_main.cpp.
pub mod Reports
pub mod Buffer
pub mod Transport
pub mod Loop
pub mod Soundness
pub mod Progress
pub mod Run
pub mod Connections
pub mod Mailbox
