-- ===== src/Rfa/Print.antt =====
-- The text of RFA's messages and events in the log: src/rfaostream.hh.
pub mod Masks
pub mod Names
pub mod Messages
