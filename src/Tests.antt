-- ===== src/Tests.antt =====
-- Runs of the model on concrete inputs.
pub mod World
pub mod Counts
mod Searches
mod Releases
mod Runs
mod Boots
mod Managing
mod Pages
mod Versions
mod Events
pub mod Users
mod Classes
