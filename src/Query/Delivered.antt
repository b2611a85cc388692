-- ===== src/Query/Delivered.antt =====
-- A transfer, callback by callback: the lines of the header, and the chunks of the payload, as the
-- callbacks of src/psych.cc take them.
use psych.Prelude.{
  ℕ, ◌+◌, ◌<◌, false, some, List, [], ◌∷◌, ◌++◌, ◌≡◌, refl, ap, sym, ◌∙◌, ltb, length, get_elem?,
  All, Bool-cases, inl, inr,
}
use mathlib.Core.List.{append-nil}
use psych.Prelude.Int.{ℤ}
use psych.Prelude.Bytes.{Bytes, codes, starts_with}
use psych.Platform.{Ptime}
use psych.Http.Transfer.{Connection, on_http_data, receive}
use psych.Http.Date.Scan.{MakePtime, Handled, handled, threw, overran, months, on_http_header}
use psych.Http.Date.RoundTrip.{IsWord, date_header, on_http_header-date_header}
use psych.Query.Round.{Transfer, transferred}

abbrev pub and_next : Handled → (Connection → Handled) → Handled
and_next (handled c) next = next c
and_next threw next = threw
and_next overran next = overran

-- the header callback, line by line
unfoldable pub receive_headers : MakePtime → Connection → List Bytes → Handled
receive_headers make_ptime c [] = handled c
receive_headers make_ptime c (line ∷ rest) =
    and_next (on_http_header make_ptime c line) λ c'. receive_headers make_ptime c' rest

-- a transfer, whether libcurl gives up on a chunk or not
unfoldable pub deliver : MakePtime → Connection → List Bytes → List Bytes → Handled
unfolding receive_headers
deliver make_ptime c lines chunks =
    and_next (receive_headers make_ptime c lines) λ c'. handled (receive c' chunks).0

on_http_header_other :
    (make_ptime : MakePtime) (c : Connection) (line : Bytes)
    → starts_with (codes "Date:") line ≡ false
    → on_http_header make_ptime c line ≡ handled c
unfolding on_http_header
on_http_header_other make_ptime c line h = rw h refl

receive_headers_others :
    (make_ptime : MakePtime) (c : Connection) (lines rest : List Bytes)
    → All (λ line. starts_with (codes "Date:") line ≡ false) lines
    → receive_headers make_ptime c (lines ++ rest) ≡ receive_headers make_ptime c rest
unfolding receive_headers
receive_headers_others make_ptime c [] rest h = refl
receive_headers_others make_ptime c (line ∷ lines) rest (h, hs) =
    rw (on_http_header_other make_ptime c line h)
      (receive_headers_others make_ptime c lines rest hs)

-- The payload is taken whatever the date is.
on_http_data_dated :
    (c : Connection) (date : Ptime) (x : Bytes)
    → on_http_data (record c { httpd_ptime = date }) x
      ≡ (record (on_http_data c x).0 { httpd_ptime = date }, (on_http_data c x).1)
unfolding on_http_data
on_http_data_dated c date x = elim (Bool-cases (ltb c.capacity (length c.payload + length x))) [
  | inl over ↦ rw over refl
  | inr fits ↦ rw fits refl
]

receive_dated :
    (c : Connection) (date : Ptime) (chunks : List Bytes)
    → receive (record c { httpd_ptime = date }) chunks
      ≡ (record (receive c chunks).0 { httpd_ptime = date }, (receive c chunks).1)
unfolding receive
receive_dated c date [] = refl
receive_dated c date (x ∷ xs) =
    let later = receive_dated (on_http_data c x).0 date xs in
    elim (Bool-cases (ltb (on_http_data c x).1 (length x))) [
      | inl stop ↦ rw (on_http_data_dated c date x, stop) refl
      | inr more ↦ rw (on_http_data_dated c date x, more) later
    ]

-- If one line of the header is a Date header, with a weekday of three letters without white space, a
-- month of the table, a year of four digits at most and other numbers of two, of which Boost makes a
-- time, and no other line begins with "Date:", then the callbacks leave the connection as the query
-- takes it to be after a transfer with these chunks and just that date.
pub deliver-transferred :
    (make_ptime : MakePtime) (connection : Connection) (before after : List Bytes)
    (x y z mday mon year hour min sec : ℕ) (mmm : Bytes) (time : ℤ) (t : Transfer)
    → All (λ line. starts_with (codes "Date:") line ≡ false) before
    → All (λ line. starts_with (codes "Date:") line ≡ false) after
    → IsWord (x ∷ y ∷ z ∷ [])
    → get_elem? months mon ≡ some mmm
    → mday < 100
    → year < 10000
    → hour < 100
    → min < 100
    → sec < 100
    → make_ptime year (1 + mon) mday hour min sec ≡ some (some time)
    → t.date ≡ some time
    → deliver make_ptime connection
        (before ++ date_header (x ∷ y ∷ z ∷ []) mday mmm year hour min sec ∷ after)
        t.chunks
      ≡ handled (transferred t connection)
unfolding deliver receive_headers
deliver-transferred make_ptime connection before after x y z mday mon year hour min sec mmm time t
      others_before others_after word month h1 h2 h3 h4 h5 made date =
    let line = date_header (x ∷ y ∷ z ∷ []) mday mmm year hour min sec in
    let dated = record connection { httpd_ptime = some time } in
    let stored =
      on_http_header-date_header make_ptime connection x y z mday mon year hour min sec mmm time
        word month h1 h2 h3 h4 h5 made in
    let rest = receive_headers_others make_ptime dated after [] others_after in
    let lines : receive_headers make_ptime connection (before ++ line ∷ after) ≡ handled dated =
      receive_headers_others make_ptime connection before (line ∷ after) others_before
      ∙ rw stored (ap (receive_headers make_ptime dated) (sym (append-nil after)) ∙ rest) in
    rw lines (ap (λ p. handled p.0) (receive_dated connection (some time) t.chunks) ∙ rw date refl)
