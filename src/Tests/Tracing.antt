-- ===== src/Tests/Tracing.antt =====
-- The trace of a transfer: src/psych.cc, on_http_trace.
use psych.Prelude.{ℕ, ◌+◌, ◌≡◌, some, List, [], ◌∷◌, ◌++◌, refl, arith, length, replicate}
use psych.Prelude.Bytes.{Bytes, codes}
use psych.Config.Print.{decimal}
use psych.Schedule.Flex.{padded}
use psych.Http.Trace.{info_text, header_in, on_http_trace, trace_with, dump, row}
use psych.Http.Trace.Rows.{rows_of, lines_of, later_rows, fill}
use psych.Http.Trace.Dumped.{texts, dump-rows_of}

abbrev header : Bytes
header = codes "HTTP/1.1 200 OK\r\nServer: x\t\r\n\r\n"

traced :
    on_http_trace 40 header_in header
    ≡ some (
        codes "recv header, 31 bytes"
        ∷ codes "0000HTTP/1.1 200 OK"
        ∷ codes "0017Server: x."
        ∷ codes "0029"
        ∷ [])
unfolding on_http_trace trace_with dump row decimal padded
traced = refl

-- 64 characters and a line's end are one row, 65 are two.
long_lines :
    rows_of (replicate 64 b'a' ++ codes "\r\n" ++ replicate 65 b'b')
    ≡ replicate 64 b'a' ∷ replicate 64 b'b' ∷ codes "b" ∷ []
unfolding rows_of lines_of later_rows fill
long_lines = refl

told : on_http_trace 0 info_text (codes "Connected") ≡ some (codes "Connected" ∷ [])
unfolding on_http_trace
told = refl

dump-rows_of_example :
    (rows : List (ℕ × Bytes)) × (dump (length header + 1) header 0 ≡ some rows)
    × (texts rows ≡ rows_of header)
dump-rows_of_example = dump-rows_of header (omega arith)
