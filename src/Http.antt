-- ===== src/Http.antt =====
-- The HTTP side of src/psych.cc: transfers, and the checks and the parser of a response.
pub mod Counters
pub mod Transfer
pub mod Header
pub mod Table
pub mod Response
pub mod Date
pub mod Trace
