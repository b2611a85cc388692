-- ===== src/Http/Date.antt =====
-- The Date header of a response: `on_http_header` of src/psych.cc.
pub mod Scan
pub mod RoundTrip
