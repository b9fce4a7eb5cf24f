-- ===== src/Tests.antt =====
-- Runs at concrete inputs.
mod Connections
mod Messages
mod Channels
mod Pools
mod Buffers
mod Intercepts
mod Lifecycle
mod StringBufs
mod DeadlineRuns
mod UtilTexts
mod Collections
