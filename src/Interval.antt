-- ===== src/Interval.antt =====
-- When the next query is due: `GetNextInterval` of src/psych.cc. Times are seconds since the Unix
-- epoch; the time of day that intervals count from, and their length, are not negative.
pub mod Next
pub mod Grid
