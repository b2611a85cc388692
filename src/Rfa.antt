-- ===== src/Rfa.antt =====
-- src/rfa.cc: the configuration database of RFA, filled from the configuration.
pub mod Paths
pub mod Staging
pub mod Version
pub mod Log
pub mod Print
pub mod Errors
