-- ===== src/Query.antt =====
-- `httpPsychQuery` of src/psych.cc: rounds of transfers, until none is pending or the retries end.
pub mod Round
pub mod Delivered
pub mod Loop
pub mod Accounting
pub mod Backoff
pub mod Options
pub mod Conditional
