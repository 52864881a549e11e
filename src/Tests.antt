-- ===== src/Tests.antt =====
-- Runs of the model on concrete inputs.
mod Device
mod Handshake
mod Frames
mod Settings
mod Queue
mod Scheduler
mod Records
mod Lanes
mod Texts
mod Samples
