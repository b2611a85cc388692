-- ===== src/Startup.antt =====
-- The streams and connections that `psych_t::Init` of src/psych.cc makes, and what they are good for.
pub mod Streams
pub mod Present
pub mod Led
