-- ===== src/Tests/Conditional.antt =====
-- The conditions of the next queries: src/psych.cc and src/tcl.cc, after a response of one row.
use psych.Prelude.{◌≡◌, ◌≢◌, false, [], ◌∷◌}
use psych.Prelude.Int.{pos, negsuc}
use psych.Config.{default_config}
use psych.Http.Response.Checks.{on_http_response}
use psych.Query.Options.{timecondition, timevalue, timer_flags, handle_options}
use psych.Query.Conditional.{conditions, on_http_response-handle_options}
use psych.Tests.Fixture.{platform, no_stamp, ok_response, state, document, is_accepted}

dated : pos 100 ≢ negsuc 0
dated h = cc h

on_http_response-handle_options_example :
    conditions (
      handle_options default_config timer_flags false
        (on_http_response platform default_config ok_response no_stamp state).1.connection)
    ≡ timecondition ∷ timevalue (pos 100) ∷ []
on_http_response-handle_options_example =
    on_http_response-handle_options platform default_config ok_response no_stamp state document
      timer_flags false dated is_accepted
