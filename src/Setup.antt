-- ===== src/Setup.antt =====
-- How a configuration is read from XML and validated: src/config.cc.
pub mod Validate
pub mod Numbers
pub mod Dom
pub mod Rfa
pub mod Feed
pub mod Tree
pub mod Kept
pub mod Json
pub mod Matched
pub mod Loaded
pub mod Names
