-- ===== src/Refresh/Safe.antt =====
-- What can go wrong while a response is published (src/psych.cc, SendRefresh): for a table that the
-- parser returns, nothing but an exception of RFA.
use psych.Prelude.{
  ℕ, zero, suc, ◌+◌, ◌<◌, Option, get_elem?, none, some, List, [], ◌∷◌, ◌≡◌, ◌≢◌, inl, inr, refl,
  sym, ◌∙◌, ap, arith, length, get_elem?-lt, All, Option-cases,
}
use mathlib.Core.Path.{subst}
use psych.Prelude.Int.{ℤ}
use psych.Prelude.Bytes.{Bytes}
use psych.Config.{Resource, Config}
use psych.Messages.{FieldEntry, MarketPrice, RespMsg, market_price_refresh}
use psych.Platform.{Platform}
use psych.Store.{Session, ItemStream, Provider}
use psych.Session.Tokens.{SubmitResult, send}
use psych.Provider.Streams.{
  Sent, all_sent, threw, out_of_range, finish_send, send_stream, send_tokens, send_first,
}
use psych.Provider.Coverage.Publish.{sessions_after, length-send_tokens}
use psych.Provider.Coverage.Steps.{Covered}
use psych.Http.Table.{Document, Row}
use psych.Http.Table.Width.{Wide}
use psych.Http.Header.{Stamp}
use psych.Http.Response.Checks.{Response, State, accepted, on_http_response}
use psych.Http.Response.Verdicts.{on_http_response-Passed}
use psych.Refresh.Fields.{built, find_field, column_fields}
use psych.Refresh.Aligned.{mapped, row_fields, column_fields-mapped}
use psych.Refresh.Rows.{
  NameMap, Batch, Published, published_all, interrupted, faulted, after_send, market_price,
  send_built, send_mapped, send_row, and_then, send_rows, find_name, send_closed, send_refresh,
}

-- The first column, that of the sectors, is mapped to no field.
abbrev pub Unmapped : List (Bytes × ℤ) → List Bytes → Type 0
Unmapped fields [] = Unit
Unmapped fields (first ∷ columns) = find_field first fields ≡ none

-- Every stream that a sector is mapped to exists.
abbrev pub Present : List ItemStream → NameMap → Type 0
Present streams names = All (λ e. e.1.1 < length streams) names

-- Every stream has a token for each of n sessions.
abbrev pub Filled : ℕ → List ItemStream → Type 0
Filled n streams = All (λ st. length st.token ≡ n) streams

pub Filled-get_elem? :
    (n : ℕ) (streams : List ItemStream) (q : ℕ) (st : ItemStream)
    → Filled n streams
    → get_elem? streams q ≡ some st
    → length st.token ≡ n
Filled-get_elem? n [] q st h at = absurd (cc at)
Filled-get_elem? n (x ∷ streams) zero st (here, there) at =
    let same : x ≡ st = cc in subst (λ (y : ItemStream). length y.token ≡ n) same here
Filled-get_elem? n (x ∷ streams) (suc q) st (here, there) at =
    Filled-get_elem? n streams q st there at

pub Filled-all :
    (n : ℕ) (streams : List ItemStream)
    → ((q : ℕ) (st : ItemStream) → get_elem? streams q ≡ some st → length st.token ≡ n)
    → Filled n streams
Filled-all n [] h = tt
Filled-all n (x ∷ streams) h = (h 0 x refl, Filled-all n streams (λ q st at. h (suc q) st at))

-- The streams and the number of the sessions are those of before.
abbrev Same : List ItemStream → ℕ → Provider → Type 0
Same streams n p = (p.streams ≡ streams) × (length p.sessions ≡ n)

-- No CHECK has failed in a part of the loop and no index was out of bounds.
abbrev Kept : List ItemStream → ℕ → Published → Type 0
Kept streams n (published_all p) = Same streams n p
Kept streams n (interrupted p) = Same streams n p
Kept streams n faulted = ⊥

-- With a token for each session, `Send` does not read past the tokens.
send_first-range :
    (s : Session) (rest : List Session) (r : Option (Session × ℕ)) (later : Sent)
    → later ≢ out_of_range
    → send_first s rest r later ≢ out_of_range
send_first-range s rest none later h = cc
send_first-range s rest (some (s', n)) (all_sent ss) h = cc
send_first-range s rest (some (s', n)) (threw ss) h = cc
send_first-range s rest (some (s', n)) out_of_range h = λ e. h refl

send_tokens-range :
    (answers : ℕ → SubmitResult) (msg : RespMsg) (k : ℕ) (tokens : List (Option ℕ))
    (ss : List Session)
    → length tokens ≡ length ss
    → send_tokens answers msg k tokens ss ≢ out_of_range
unfolding send_tokens
send_tokens-range answers msg k tokens [] h = cc
send_tokens-range answers msg k [] (s ∷ ss) h = absurd (omega arith)
send_tokens-range answers msg k (t ∷ tokens) (s ∷ ss) h =
    send_first-range s ss (send (answers k) s msg t) (send_tokens answers msg (k + 1) tokens ss)
      (send_tokens-range answers msg (k + 1) tokens ss (omega arith))

after_send-Kept :
    (p : Provider) (r : Sent)
    → r ≢ out_of_range
    → length (sessions_after p.sessions r) ≡ length p.sessions
    → Kept p.streams (length p.sessions) (after_send (finish_send p r))
after_send-Kept p (all_sent ss) h len = (refl, len)
after_send-Kept p (threw ss) h len = (refl, len)
after_send-Kept p out_of_range h len = h refl

module _ (plat : Platform) (b : Batch plat) (names : NameMap) where
  columns-built :
      (columns : List Bytes) (values : List plat.Double)
      → Unmapped b.resource.fields columns
      → length values + 1 ≡ length columns
      → (es : List FieldEntry) × (column_fields plat b.resource.fields 0 columns values ≡ built es)
  columns-built [] values un wide = absurd (omega arith)
  columns-built (first ∷ columns) values un wide = (
    mapped plat b.resource.fields columns values,
    column_fields-mapped plat b.resource.fields first columns values wide
        ∙ ap (λ o. row_fields plat b.resource.fields o columns values) un,
  )

  market_price-built :
      (p : Provider) (st : ItemStream) (topic : Bytes) (row : Row plat)
      → Unmapped b.resource.fields b.doc.columns
      → Wide plat (length b.doc.columns) row
      → (m : MarketPrice) × (market_price plat b p st topic row ≡ built m)
  unfolding market_price
  market_price-built p st topic row un wide =
      let (es, e) = columns-built b.doc.columns row.1 un wide in rw e (_, refl)

  send_built-Kept :
      (answers : ℕ → SubmitResult) (p : Provider) (st : ItemStream) (m : MarketPrice)
      → length st.token ≡ length p.sessions
      → Kept p.streams (length p.sessions) (send_built answers p st (built m))
  unfolding send_built send_stream
  send_built-Kept answers p st m fits =
      let msg = market_price_refresh m in
      after_send-Kept p (send_tokens answers msg 0 st.token p.sessions)
        (send_tokens-range answers msg 0 st.token p.sessions fits)
        (length-send_tokens answers msg 0 st.token p.sessions)

  pub found_name-Present :
      (streams : List ItemStream) (sector topic : Bytes) (q : ℕ) (ns : NameMap)
      → Present streams ns
      → find_name sector ns ≡ some (topic, q)
      → q < length streams
  unfolding find_name
  found_name-Present streams sector topic q [] h e = cc
  found_name-Present streams sector topic q ((k, (t, j)) ∷ ns) (here, there) e =
      ground (arith, found_name-Present streams sector topic q ns there)

  send_row-Kept :
      (answers : ℕ → SubmitResult) (p : Provider) (row : Row plat)
      → Unmapped b.resource.fields b.doc.columns
      → Wide plat (length b.doc.columns) row
      → Present p.streams names
      → Filled (length p.sessions) p.streams
      → Kept p.streams (length p.sessions) (send_row plat answers b p row (find_name row.0 names))
  unfolding send_row send_mapped
  send_row-Kept answers p row un wide present filled = elim (Option-cases (find_name row.0 names)) [
    | inl e ↦ rw e (refl, refl)
    | inr ((topic, q), e) ↦
        let (st, at) =
          get_elem?-lt p.streams q (found_name-Present p.streams row.0 topic q names present e) in
        let (m, made) = market_price-built p st topic row un wide in
        rw (e, at, made)
          (send_built-Kept answers p st m
            (Filled-get_elem? (length p.sessions) p.streams q st filled at))
  ]

  and_then-Kept :
      (streams : List ItemStream) (n : ℕ) (r : Published) (next : Provider → Published)
      → Kept streams n r
      → ((q : Provider) → Same streams n q → Kept streams n (next q))
      → Kept streams n (and_then r next)
  and_then-Kept streams n (published_all q) next h f = f q h
  and_then-Kept streams n (interrupted q) next h f = h
  and_then-Kept streams n faulted next h f = h

  send_rows-Kept :
      (answers : ℕ → ℕ → SubmitResult) (k n : ℕ) (p : Provider) (streams : List ItemStream)
      (rows : List (Row plat))
      → Same streams n p
      → Unmapped b.resource.fields b.doc.columns
      → All (Wide plat (length b.doc.columns)) rows
      → Present streams names
      → Filled n streams
      → Kept streams n (send_rows plat answers k b names p rows)
  unfolding send_rows
  send_rows-Kept answers k n p streams [] same un wide present filled = same
  send_rows-Kept answers k n p streams (row ∷ rows) (same, len) un (wide, later) present filled =
      and_then-Kept streams n (send_row plat (answers k) b p row (find_name row.0 names)) _
        (subst (λ ss. Kept ss n (send_row plat (answers k) b p row (find_name row.0 names))) same
          (subst (λ m. Kept p.streams m (send_row plat (answers k) b p row (find_name row.0 names)))
            len
            (send_row-Kept (answers k) p row un wide
              (subst (λ ss. Present ss names) (sym same) present)
              (subst (λ m. Filled m p.streams) (sym len) (subst (Filled n) (sym same) filled)))))
        (λ q kept. send_rows-Kept answers (k + 1) n q streams rows kept un later present filled)

Kept-ne-faulted :
    (streams : List ItemStream) (n : ℕ) (r : Published) → Kept streams n r → r ≢ faulted
Kept-ne-faulted streams n (published_all q) k h = cc
Kept-ne-faulted streams n (interrupted q) k h = cc
Kept-ne-faulted streams n faulted k h = k

module _ (plat : Platform) (config : Config) (r : Response) (old : Stamp) (st : State) where
  -- If `OnHttpResponse` accepts a response with a close time, the resource maps no field to the
  -- column of the sectors, every mapped sector has a stream, and the provider is covered, then
  -- publishing the response ends with all rows sent or with an exception of RFA: no CHECK fails, and
  -- neither a stream, nor a value of a row, nor a token of a stream is read out of range.
  pub send_refresh-ne-faulted :
      (doc : Document plat) (answers : ℕ → ℕ → SubmitResult) (resource : Resource) (names : NameMap)
      (p : Provider) (t : ℤ)
      → (on_http_response plat config r old st).0 ≡ accepted doc
      → doc.stamp.close_time ≡ some t
      → Unmapped resource.fields doc.columns
      → Present p.streams names
      → Covered p
      → send_refresh plat answers config resource doc names p ≢ faulted
  unfolding send_refresh
  send_refresh-ne-faulted doc answers resource names p t ok closed un present c =
      let passed = on_http_response-Passed plat config r old st doc ok in
      unfold send_closed in
      rw closed (
        Kept-ne-faulted p.streams (length p.sessions) _ (
          send_rows-Kept plat _ names answers 0 (length p.sessions) p p.streams doc.rows
            (refl, refl) un passed.table.wide present
            (Filled-all (length p.sessions) p.streams c.sized)))
