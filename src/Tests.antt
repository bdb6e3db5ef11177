-- ===== src/Tests.antt =====
-- The theorems applied to concrete inputs.
mod Alarms
mod Storage
mod Playlists
mod Schedules
mod Outputs
mod Playback
mod Queues
mod Accounts
mod Machines
mod Rules
