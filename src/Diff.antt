-- ===== src/Diff.antt =====
-- src/chronicler/save/diff.py: the events between two adjacent snapshots.
pub mod Types
pub mod Make
pub mod Attributes
pub mod Character
pub mod SetDiff
pub mod Titles
pub mod Wars
pub mod Dynasties
pub mod Streams
pub mod Snapshots
pub mod Owner
pub mod Kinds
pub mod SetOwner
pub mod TitleOwner
pub mod StreamOwner
pub mod Deaths
pub mod Age
pub mod Families
pub mod Tracked
pub mod Elements
pub mod TitleChanges
