-- ===== src/Tailer.antt =====
-- src/chronicler/tailer/: the reading of the log of the game while it grows.
pub mod Scan
pub mod Envelope
pub mod Parser
pub mod Feed
pub mod Steps
pub mod Counts
pub mod Resync
pub mod Reported
pub mod Sources
pub mod Watcher
pub mod Reading
pub mod ExactlyOnce
