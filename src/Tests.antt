-- ===== src/Tests.antt =====
-- The theorems applied to concrete data, by the part of the program that they are about.
pub mod Data
pub mod Hundredths
pub mod Windows
pub mod Layers
pub mod Pages
pub mod Writes
pub mod Merges
pub mod Rows
pub mod Hashes
pub mod Names
pub mod Groups
pub mod Routes
pub mod Cleanings
pub mod Crawls
pub mod Extractions
pub mod Analyses
pub mod Retries
pub mod Scores
pub mod Searches
