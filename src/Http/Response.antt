-- ===== src/Http/Response.antt =====
-- `psych_t::OnHttpResponse` of src/psych.cc: the checks of a response, its counters and its parser.
pub mod Checks
pub mod Verdicts
pub mod Faults
pub use Checks.{Response, State, Verdict, accepted, refused, crashed, threw, psych_magic}
unfoldable pub use Checks.{on_http_response, count_status}
