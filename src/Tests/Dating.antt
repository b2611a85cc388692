-- ===== src/Tests/Dating.antt =====
-- The Date header: src/psych.cc, on_http_header.
use psych.Prelude.{false, [], ◌∷◌, ◌+◌, ◌*◌, ◌≡◌, some, refl, arith}
use psych.Prelude.Int.{pos}
use psych.Prelude.Bytes.{Bytes, codes, starts_with, skip_space, equal}
use psych.Http.Date.Scan.{
  MakePtime, on_http_header, handled, overran, scan_date, scan_word, word_end, scan_hu,
  signed_number, scan_digits, find_month,
}
use psych.Http.Date.RoundTrip.{date_header}
use psych.Query.Round.{Transfer, transferred}
use psych.Query.Delivered.{deliver, deliver-transferred}
use psych.Tests.Fixture.{connection, ok_response}

-- seconds since the start of the year 0, were all months 31 days long
abbrev make_ptime : MakePtime
make_ptime year month day hours minutes seconds =
    some
      (some (pos (((((year * 12 + month) * 31 + day) * 24 + hours) * 60 + minutes) * 60 + seconds)))

abbrev text : Bytes
text = codes "Date: Thu, 03 May 2012 21:19:00 GMT\r\n"

prints : date_header (codes "Thu") 3 (codes "May") 2012 21 19 0 ≡ text
prints = refl

reads :
    on_http_header make_ptime connection text
    ≡ handled (record connection { httpd_ptime = some (pos 64681017540) })
unfolding on_http_header starts_with scan_date scan_word skip_space word_end scan_hu signed_number
    scan_digits find_month equal
reads = refl

-- a weekday of 26 letters
runs_over :
    on_http_header make_ptime connection (codes "Date: abcdefghijklmnopqrstuvwxyz 1") ≡ overran
unfolding on_http_header starts_with scan_date scan_word skip_space word_end
runs_over = refl

-- The date stands between two other lines.
abbrev delivered : Transfer
delivered = record {
  index = 0;
  response = ok_response;
  date = some (pos 64681017540);
  chunks = codes "#" ∷ [];
  engine_version = [];
  answers = λ row i. some 0;
}

status_line : starts_with (codes "Date:") (codes "HTTP/1.1 200 OK\r\n") ≡ false
unfolding starts_with
status_line = refl

end_line : starts_with (codes "Date:") (codes "\r\n") ≡ false
unfolding starts_with
end_line = refl

deliver-transferred_example :
    deliver make_ptime connection
      (codes "HTTP/1.1 200 OK\r\n"
        ∷ date_header (codes "Thu") 3 (codes "May") 2012 21 19 0
        ∷ codes "\r\n"
        ∷ [])
      delivered.chunks
    ≡ handled (transferred delivered connection)
deliver-transferred_example =
    deliver-transferred make_ptime connection (codes "HTTP/1.1 200 OK\r\n" ∷ []) (codes "\r\n" ∷ [])
      b'T' b'h' b'u' 3 4 2012 21 19 0 (codes "May") (pos 64681017540) delivered (status_line, tt)
      (end_line, tt) (refl, (refl, (refl, tt))) refl (omega arith) (omega arith) (omega arith)
      (omega arith) (omega arith) refl refl
