-- ===== src/Http/Response/Checks.antt =====
-- The function itself, in the order of its checks.
use psych.Prelude.{
  ℕ, ◌-◌, suc, Bool, true, ◌&&◌, not, Option, none, some, [], ltb, leb, ◌==◌, if◌then◌else◌,
  is_empty, length, Stats, store, bump,
}
use psych.Prelude.Int.{ℤ, pos, negsuc, ◌-ℤ◌, abs, leb_ℤ}
use psych.Prelude.Bytes.{Bytes, codes, starts_with, atol}
use psych.Config.{Config}
use psych.Platform.{Platform, Ptime, seconds_between}
use psych.Http.Counters.{
  http_1xx_received, http_2xx_received, http_3xx_received, http_4xx_received, http_5xx_received,
  http_200_received, http_304_received, httpd_clock_drift, http_clock_drift, psych_clock_drift,
  to_u32,
}
use psych.Http.Transfer.{Connection}
use psych.Http.Header.{Parsed, go, fail, escape, Stamp}
use psych.Http.Table.{Document, timestamp, parse_tokens}

-- What `curl_easy_getinfo` tells of a transfer: the status, the content type (`none` is a null
-- pointer) and the file time, -1 where it is not known.
pub record Response : Type 0 where
  pub code : ℕ
  pub content_type : Option Bytes
  pub filetime : ℤ

-- The connection and the counters of psych.
pub record State : Type 0 where
  pub connection : Connection
  pub stats : Stats

-- How the function ends: true with a document, false, a null pointer read, or an exception.
pub data Verdict (plat : Platform) : Type 0 where
  accepted : Document plat → Verdict plat
  refused crashed threw : Verdict plat

-- `kPsychMagic`
abbrev pub psych_magic : Bytes
psych_magic = codes "# Ma"

-- the counter of the range of a code other than 200
unfoldable pub range_counter : ℕ → Option ℕ
range_counter code =
    if leb 100 code && leb code 199
    then some http_1xx_received
    else if leb 200 code && leb code 299
    then some http_2xx_received
    else if leb 300 code && leb code 399
    then some http_3xx_received
    else if leb 400 code && leb code 499
    then some http_4xx_received
    else if leb 500 code && leb code 599
    then some http_5xx_received
    else none

abbrev pub bump_if : Option ℕ → Stats → Stats
bump_if none s = s
bump_if (some i) s = bump i s

-- the breakdown of the codes
unfoldable pub count_status : ℕ → Stats → Stats
unfolding range_counter
count_status code s =
    if code == 200
    then bump http_2xx_received (bump http_200_received s)
    else (let ranged = bump_if (range_counter code) s in
        if code == 304 then bump http_304_received ranged else ranged)

-- the conversion of a long to size_t
abbrev to_size : ℤ → ℕ
to_size (pos n) = n
to_size (negsuc n) = 18446744073709551616 - suc n

unfoldable pub minimum_size : Config → ℕ
minimum_size config =
    if is_empty config.minimum_response_size then 4 else to_size (atol config.minimum_response_size)

-- the drift of the server's clock
unfoldable pub drift : Ptime → Connection → Stats → Stats
unfolding seconds_between
drift none c s = s
drift (some t) c s = store httpd_clock_drift (to_u32 (seconds_between t c.request_ptime)) s

unfoldable pub close_drift : Ptime → Connection → Stats → Stats
unfolding seconds_between
close_drift none c s = s
close_drift (some t) c s = store psych_clock_drift (to_u32 (seconds_between t c.request_ptime)) s

-- the verdict on the lines, and the drift of the close time
abbrev pub verdict_of : (plat : Platform) → State → Parsed (Document plat) → Verdict plat × State
verdict_of plat st (go doc) =
    (accepted doc, record st { stats = close_drift doc.stamp.close_time st.connection st.stats })
verdict_of plat st fail = (refused, st)
verdict_of plat st escape = (threw, st)

-- the payload, line by line
unfoldable pub parse_payload : (plat : Platform) → Stamp → State → Verdict plat × State
parse_payload plat stamp st = verdict_of plat st (
    parse_tokens plat timestamp (record { stamp = stamp; columns = []; rows = [] })
      (plat.tokenize st.connection.payload))

-- is the clock offset within the panic threshold?
unfoldable pub within_threshold : Config → ℤ → Bool
within_threshold config offset =
    if is_empty config.panic_threshold
    then true
    else not (leb_ℤ (atol config.panic_threshold) (abs offset))

-- the file time is checked, and kept before the payload is looked at
unfoldable pub check_filetime :
    (plat : Platform) → Config → Response → Stamp → State → Verdict plat × State
check_filetime plat config r stamp st =
    let offset = r.filetime -ℤ seconds_between st.connection.request_ptime (pos 0) in
    let stats = store http_clock_drift (to_u32 offset) st.stats in
    if leb_ℤ r.filetime (negsuc 0) && leb_ℤ (negsuc 0) r.filetime
    then parse_payload plat stamp st
    else if within_threshold config offset
    then parse_payload plat stamp
        (record { connection = record st.connection { last_filetime = r.filetime }; stats = stats })
    else (refused, record st { stats = stats })

-- the size and the first bytes of the payload
unfoldable pub check_payload :
    (plat : Platform) → Config → Response → Stamp → State → Verdict plat × State
check_payload plat config r stamp st =
    if ltb (length st.connection.payload) (minimum_size config)
    then (refused, st)
    else if starts_with psych_magic st.connection.payload
    then check_filetime plat config r stamp
        (record st { stats = drift st.connection.httpd_ptime st.connection st.stats })
    else (refused, st)

unfoldable pub check_type :
    (plat : Platform) → Config → Response → Option Bytes → Stamp → State → Verdict plat × State
check_type plat config r none stamp st = (crashed, st)
check_type plat config r (some content_type) stamp st =
    if starts_with (codes "text/plain") content_type
    then check_payload plat config r stamp st
    else (refused, st)

-- `OnHttpResponse`; `stamp` holds what the caller's variables held before
unfoldable pub on_http_response :
    (plat : Platform) → Config → Response → Stamp → State → Verdict plat × State
on_http_response plat config r stamp st =
    let counted = record st { stats = count_status r.code st.stats } in
    if r.code == 200
    then check_type plat config r r.content_type stamp counted
    else (refused, counted)
