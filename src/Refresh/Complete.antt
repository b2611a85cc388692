-- ===== src/Refresh/Complete.antt =====
-- An accepted response reaches every session (src/psych.cc, SendRefresh, and `Send` of
-- src/provider.cc), where RFA raises no exception.
use psych.Prelude.{
  ℕ, ◌+◌, Option, none, some, List, [], ◌∷◌, ◌≡◌, ◌≢◌, inl, inr, refl, sym, ◌∙◌, ap, arith, length,
  get_elem?, get_elem?-lt, All, All-append, Option-cases,
}
use mathlib.Core.Path.{subst}
use psych.Prelude.Int.{ℤ, pos}
use psych.Prelude.Bytes.{Bytes}
use psych.Config.{Resource, Config}
use psych.Messages.{MarketPrice, market_price_refresh}
use psych.Platform.{Platform, seconds_between}
use psych.Store.{Session, ItemStream, Provider}
use psych.Session.Tokens.{SubmitResult}
use psych.Provider.Streams.{send_stream}
use psych.Provider.Coverage.Publish.{send_tokens-published}
use psych.Provider.Coverage.Steps.{Covered}
use psych.Http.Table.{Document, Row}
use psych.Http.Table.Width.{Wide}
use psych.Http.Header.{Stamp}
use psych.Http.Response.Checks.{Response, State, accepted, on_http_response}
use psych.Http.Response.Verdicts.{on_http_response-Passed}
use psych.Refresh.Fields.{built, column_fields}
use psych.Refresh.Aligned.{row_fields, column_fields-mapped}
use psych.Refresh.Rows.{
  NameMap, Batch, published_all, market_price, send_built, send_mapped, send_row, send_rows,
  find_name, send_closed, send_refresh,
}
use psych.Refresh.Safe.{Unmapped, Present, Filled, Filled-get_elem?, Filled-all, found_name-Present}
use psych.Refresh.Described.{
  columns_of, row_message, row_delivery, mapped_delivery, deliveries, deliver_one, deliver_all,
  deliver_all-append, deliver_all-streams, length-deliver_all, same_deliveries, submissions,
  Extended, Fits, deliver_all-Extended,
}

module _ (plat : Platform) (b : Batch plat) (names : NameMap) where
  columns-of :
      (columns : List Bytes) (values : List plat.Double)
      → Unmapped b.resource.fields columns
      → length values + 1 ≡ length columns
      → column_fields plat b.resource.fields 0 columns values
        ≡ built (columns_of plat b columns values)
  columns-of [] values un wide = absurd (omega arith)
  columns-of (first ∷ columns) values un wide =
      column_fields-mapped plat b.resource.fields first columns values wide
      ∙ ap (λ o. row_fields plat b.resource.fields o columns values) un

  market_price-row_message :
      (p : Provider) (st : ItemStream) (topic : Bytes) (row : Row plat)
      → Unmapped b.resource.fields b.doc.columns
      → Wide plat (length b.doc.columns) row
      → market_price plat b p st topic row ≡ built (row_message plat b p st topic row)
  unfolding market_price
  market_price-row_message p st topic row un wide = rw (columns-of b.doc.columns row.1 un wide) refl

  send_built-deliver :
      (answers : ℕ → SubmitResult) (p : Provider) (st : ItemStream) (m : MarketPrice)
      → ((i : ℕ) → answers i ≢ none)
      → length st.token ≡ length p.sessions
      → send_built answers p st (built m) ≡ published_all (deliver_one p (st.token, m))
  unfolding send_built send_stream
  send_built-deliver answers p st m fine fits =
      rw (send_tokens-published answers (market_price_refresh m) 0 st.token p.sessions fine fits)
        refl

  send_row-deliver :
      (answers : ℕ → SubmitResult) (p : Provider) (row : Row plat)
      → ((i : ℕ) → answers i ≢ none)
      → Unmapped b.resource.fields b.doc.columns
      → Wide plat (length b.doc.columns) row
      → Present p.streams names
      → Filled (length p.sessions) p.streams
      → send_row plat answers b p row (find_name row.0 names)
        ≡ published_all (deliver_all (mapped_delivery plat b p row (find_name row.0 names)) p)
  unfolding send_row send_mapped
  send_row-deliver answers p row fine un wide present filled =
      elim (Option-cases (find_name row.0 names)) [
        | inl e ↦ rw e refl
        | inr ((topic, q), e) ↦
            let (st, at) =
              get_elem?-lt p.streams q
                (found_name-Present plat b names p.streams row.0 topic q names present e) in
            rw (e, at, market_price-row_message p st topic row un wide)
              (send_built-deliver answers p st (row_message plat b p st topic row) fine
                (Filled-get_elem? (length p.sessions) p.streams q st filled at))
      ]

  row_delivery-Fits :
      (n : ℕ) (p : Provider) (row : Row plat) (topic : Bytes) (o : Option ItemStream)
      → ((st : ItemStream) → o ≡ some st → length st.token ≡ n)
      → All (Fits n) (row_delivery plat b p row topic o)
  row_delivery-Fits n p row topic none h = tt
  row_delivery-Fits n p row topic (some st) h = (h st refl, tt)

  mapped_delivery-Fits :
      (n : ℕ) (p : Provider) (row : Row plat) (o : Option (Bytes × ℕ))
      → Filled n p.streams
      → All (Fits n) (mapped_delivery plat b p row o)
  mapped_delivery-Fits n p row none filled = tt
  mapped_delivery-Fits n p row (some (topic, q)) filled =
      row_delivery-Fits n p row topic (get_elem? p.streams q)
        λ st at. Filled-get_elem? n p.streams q st filled at

  deliveries-Fits :
      (n : ℕ) (p : Provider) (rows : List (Row plat))
      → Filled n p.streams
      → All (Fits n) (deliveries plat b names p rows)
  deliveries-Fits n p [] filled = tt
  deliveries-Fits n p (row ∷ rows) filled =
      All-append (Fits n) (mapped_delivery plat b p row (find_name row.0 names)) _
        (mapped_delivery-Fits n p row (find_name row.0 names) filled)
        (deliveries-Fits n p rows filled)

  send_rows-deliver :
      (answers : ℕ → ℕ → SubmitResult) (k n : ℕ) (p : Provider) (rows : List (Row plat))
      → ((k' i : ℕ) → answers k' i ≢ none)
      → length p.sessions ≡ n
      → Unmapped b.resource.fields b.doc.columns
      → All (Wide plat (length b.doc.columns)) rows
      → Present p.streams names
      → Filled n p.streams
      → send_rows plat answers k b names p rows
        ≡ published_all (deliver_all (deliveries plat b names p rows) p)
  unfolding send_rows
  send_rows-deliver answers k n p [] fine len un wide present filled = refl
  send_rows-deliver answers k n p (row ∷ rows) fine len un (wide, later) present filled =
      let ds = mapped_delivery plat b p row (find_name row.0 names) in
      let same = deliver_all-streams ds p in
      rw
        (send_row-deliver (answers k) p row (fine k) un wide present
          (subst (λ m. Filled m p.streams) (sym len) filled))
        (send_rows-deliver answers (k + 1) n (deliver_all ds p) rows fine
            (length-deliver_all ds p n len
              (mapped_delivery-Fits n p row (find_name row.0 names) filled))
            un later (subst (λ ss. Present ss names) (sym same) present)
            (subst (Filled n) (sym same) filled)
          ∙ ap (λ r. published_all (deliver_all r (deliver_all ds p)))
              (same_deliveries plat b names ds p rows)
          ∙ ap published_all (sym (deliver_all-append ds (deliveries plat b names p rows) p)))

-- what the rows of a response share, its close time being t
abbrev pub batch_of : (plat : Platform) → Config → Resource → Document plat → ℤ → Batch plat
unfolding seconds_between
batch_of plat config resource doc t = record {
  config = config;
  resource = resource;
  doc = doc;
  closed = plat.gmtime (seconds_between t (pos 0));
}

module _ (plat : Platform) (config : Config) (r : Response) (old : Stamp) (st : State) where
  -- If `OnHttpResponse` accepts a response with a close time, the resource maps no field to the
  -- column of the sectors, every mapped sector has a stream, the provider is covered, and no `submit`
  -- throws, then publishing the response ends with all rows sent, and each session that is not muted
  -- has submitted, in the order of the rows, one message for each row of a
  -- mapped sector and nothing else, under its own token of the sector's stream, with the topic and
  -- the value of each mapped column; a muted session has submitted nothing.
  pub send_refresh-deliveries :
      (doc : Document plat) (answers : ℕ → ℕ → SubmitResult) (resource : Resource) (names : NameMap)
      (p : Provider) (t : ℤ)
      → (on_http_response plat config r old st).0 ≡ accepted doc
      → doc.stamp.close_time ≡ some t
      → Unmapped resource.fields doc.columns
      → Present p.streams names
      → Covered p
      → ((k i : ℕ) → answers k i ≢ none)
      → (p' : Provider) × (send_refresh plat answers config resource doc names p ≡ published_all p')
        × ((i : ℕ) (s : Session)
            → get_elem? p.sessions i ≡ some s
            → (s' : Session) × (get_elem? p'.sessions i ≡ some s')
              × Extended s
                  (submissions i
                    (deliveries plat (batch_of plat config resource doc t) names p doc.rows))
                  s')
  unfolding send_refresh
  send_refresh-deliveries doc answers resource names p t ok closed un present c fine =
      let passed = on_http_response-Passed plat config r old st doc ok in
      let b = batch_of plat config resource doc t in
      let ds = deliveries plat b names p doc.rows in
      let filled = Filled-all (length p.sessions) p.streams c.sized in
      unfold send_closed in
      (
        deliver_all ds p,
        ap (send_closed plat answers config resource doc names p) closed
            ∙ send_rows-deliver plat b names answers 0 (length p.sessions) p doc.rows fine refl un
                passed.table.wide present filled,
        λ i s at.
            deliver_all-Extended ds p (length p.sessions) i s refl
              (deliveries-Fits plat b names (length p.sessions) p doc.rows filled) at,
      )
