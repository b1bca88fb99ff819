-- ===== src/Tests.antt =====
-- Concrete saves, calls and dates, and what the theorems say of them.
mod Saves
mod Diffs
mod Lives
mod Dates
mod Queues
mod Outbreaks
mod Estates
mod Logs
mod Trees
mod Buses
mod Pauses
mod Arrivals
