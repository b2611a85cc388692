-- ===== src/Refresh/Rows.antt =====
-- One message for each row that is mapped, and the loop over the rows.
use psych.Prelude.{
  ℕ, ◌+◌, Option, none, some, List, [], ◌∷◌, ◌++◌, if◌then◌else◌, is_empty, get_elem?,
}
use psych.Prelude.Int.{pos}
use psych.Prelude.Bytes.{Bytes, equal, atol}
use psych.Config.{Resource, Config}
use psych.Messages.{MarketPrice, market_price_refresh}
use psych.Platform.{Platform, Ptime, Calendar, seconds_between}
use psych.Store.{ItemStream, Provider}
use psych.Session.Tokens.{SubmitResult}
use psych.Provider.Streams.{SendEnd, send_returned, send_raised, send_overran, send_stream}
use psych.Http.Table.{Document, Row}
use psych.Refresh.Fields.{
  Built, built, check_failed, out_of_bounds, ◌>>=◌, column_fields, common_fields,
}

-- `query_vector_[resource]`: a sector's topic and stream
abbrev pub NameMap : Type 0
NameMap = List (Bytes × (Bytes × ℕ))

unfoldable pub find_name : Bytes → NameMap → Option (Bytes × ℕ)
find_name sector [] = none
find_name sector ((k, entry) ∷ rest) = if equal k sector then some entry else find_name sector rest

-- `GeneratePELock`, where a DACS service is configured
unfoldable pub generate_pe_lock : Platform → Config → Resource → Option Bytes
generate_pe_lock plat config resource =
    if is_empty config.dacs_id
    then none
    else plat.get_lock (atol config.dacs_id) resource.entitlement_code

-- What the rows share: the resource, the document, and the close time taken apart.
pub record Batch (plat : Platform) : Type 0 where
  pub config : Config
  pub resource : Resource
  pub doc : Document plat
  pub closed : Calendar

unfoldable pub market_price :
    (plat : Platform) → Batch plat → Provider → ItemStream → Bytes → Row plat → Built MarketPrice
unfolding column_fields common_fields generate_pe_lock
market_price plat b p st topic row = do
  columns ← column_fields plat b.resource.fields 0 b.doc.columns row.1
  built (record {
    name = st.rfa_name;
    service_name = b.config.service_name;
    rwf_major = p.min_rwf_major;
    rwf_minor = p.min_rwf_minor;
    fields = common_fields b.resource topic b.doc.stamp.engine_version b.closed ++ columns;
    permission = generate_pe_lock plat b.config b.resource;
  })

-- How the loop over the rows ends: all rows are done, an exception has left it, or a CHECK
-- has failed or an index was out of bounds.
pub data Published : Type 0 where
  published_all interrupted : Provider → Published
  faulted : Published

abbrev pub after_send : Provider × SendEnd → Published
after_send (p, send_returned) = published_all p
after_send (p, send_raised) = interrupted p
after_send (p, send_overran) = faulted

-- a message through the stream
unfoldable pub send_built :
    (ℕ → SubmitResult) → Provider → ItemStream → Built MarketPrice → Published
send_built answers p st (built m) = after_send (send_stream answers p st (market_price_refresh m))
send_built answers p st check_failed = faulted
send_built answers p st out_of_bounds = faulted

-- the stream of a mapped sector
unfoldable pub send_mapped :
    (plat : Platform)
    → (ℕ → SubmitResult)
    → Batch plat
    → Provider
    → Row plat
    → Bytes
    → Option ItemStream
    → Published
unfolding send_built market_price
send_mapped plat answers b p row topic none = faulted
send_mapped plat answers b p row topic (some st) =
    send_built answers p st (market_price plat b p st topic row)

unfoldable pub send_row :
    (plat : Platform)
    → (ℕ → SubmitResult)
    → Batch plat
    → Provider
    → Row plat
    → Option (Bytes × ℕ)
    → Published
unfolding send_mapped
send_row plat answers b p row none = published_all p
send_row plat answers b p row (some (topic, q)) =
    send_mapped plat answers b p row topic (get_elem? p.streams q)

abbrev pub and_then : Published → (Provider → Published) → Published
and_then (published_all p) next = next p
and_then (interrupted p) next = interrupted p
and_then faulted next = faulted

-- the loop over the rows; `answers` says what `submit` does for each row and session
unfoldable pub send_rows :
    (plat : Platform)
    → (ℕ → ℕ → SubmitResult)
    → ℕ
    → Batch plat
    → NameMap
    → Provider
    → List (Row plat)
    → Published
unfolding send_row find_name
send_rows plat answers n b names p [] = published_all p
send_rows plat answers n b names p (row ∷ rest) =
    and_then (send_row plat (answers n) b p row (find_name row.0 names))
      λ p'. send_rows plat answers (n + 1) b names p' rest

-- the body of `SendRefresh` from the close time on; a time that is no time has no calendar
unfoldable pub send_closed :
    (plat : Platform)
    → (ℕ → ℕ → SubmitResult)
    → Config
    → Resource
    → Document plat
    → NameMap
    → Provider
    → Ptime
    → Published
unfolding send_rows seconds_between
send_closed plat answers config resource doc names p none = faulted
send_closed plat answers config resource doc names p (some t) =
    send_rows plat answers 0
      (record {
        config = config;
        resource = resource;
        doc = doc;
        closed = plat.gmtime (seconds_between t (pos 0));
      })
      names p doc.rows

-- `SendRefresh`
unfoldable pub send_refresh :
    (plat : Platform)
    → (ℕ → ℕ → SubmitResult)
    → Config
    → Resource
    → Document plat
    → NameMap
    → Provider
    → Published
unfolding send_closed
send_refresh plat answers config resource doc names p =
    send_closed plat answers config resource doc names p doc.stamp.close_time
