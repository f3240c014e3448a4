-- ===== src/Tests.antt =====
-- Runs of the models at concrete inputs, and the theorems applied there.
mod Pipe
mod Wire
mod Transfer
mod Video
mod Bridge
mod Host
mod Screen
mod Journey
