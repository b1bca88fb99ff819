-- ===== src/Parse.antt =====
-- src/chronicler/save/parse.py: from the tree of a save to the tables of a snapshot.
pub mod Json
pub mod Index
pub mod Tables
pub mod Titles
pub mod People
pub mod Alliances
pub mod Unseen
pub mod Tiers
pub mod Total
pub mod Holders
pub mod Agree
pub mod Kingdoms
