-- ===== src/Tests/Feed.antt =====
-- Responses: src/psych.cc at a response of one row.
use mathlib.Core.Option.{none}
use psych.Prelude.{◌≡◌, ◌≤◌, ◌<◌, ◌⊎◌, true, false, List, [], ◌∷◌, ◌++◌, refl, arith, length, ◌+◌}
use psych.Prelude.Bytes.{Bytes, codes, find, substr, atol}
use psych.Config.{default_config}
use psych.Http.Transfer.{Connection, receive, joined, receive-decided}
use psych.Http.Header.{go, parse_stamp}
use psych.Http.Table.{
  Document, timestamp, row, parse_token, parse_tokens, read_row, add_row, data_lines, table_rows,
}
use psych.Http.Table.Width.{parse_tokens-table}
use psych.Http.Response.Checks.{Response}
use psych.Http.Response.Verdicts.{Passed, on_http_response-Passed}
use psych.Tests.Fixture.{
  platform, payload, no_stamp, connection, document, ok_response, state, is_accepted,
}

abbrev empty_connection : Connection
empty_connection = record connection { payload = []; capacity = 8 }

-- the third chunk does not fit
abbrev chunks : List Bytes
chunks = codes "# Ma" ∷ codes "rk" ∷ codes "etPsych" ∷ []

receive-decided_example :
    (length (receive empty_connection chunks).0.payload ≤ 8)
    × (((8 < 0 + length (joined chunks)) × ((receive empty_connection chunks).1 ≡ false))
        ⊎ (receive empty_connection chunks
            ≡ (record empty_connection { payload = joined chunks }, true)))
receive-decided_example = receive-decided empty_connection chunks (omega arith)

abbrev start : Document platform
start = record { stamp = no_stamp; columns = []; rows = [] }

abbrev lines : List Bytes
lines = platform.tokenize payload

parses : parse_tokens platform timestamp start lines ≡ go document
unfolding parse_tokens parse_token add_row read_row parse_stamp find substr atol
parses = refl

abbrev titled : Document platform
titled = record document { rows = [] }

abbrev body : List Bytes
body = codes "CMPNY\t7" ∷ codes "FINSV" ∷ codes "# end" ∷ codes "A\t9" ∷ []

parse_tokens-table_example :
    parse_tokens platform row titled body
    ≡ go (record titled { rows = [] ++ table_rows platform 2 (data_lines body) })
parse_tokens-table_example = parse_tokens-table platform body titled (omega arith)

on_http_response-Passed_example : Passed platform default_config ok_response connection document
on_http_response-Passed_example =
    on_http_response-Passed platform default_config ok_response no_stamp state document is_accepted

abbrev untyped : Response
untyped = record ok_response { content_type = none }
