-- ===== src/Refresh/Described.antt =====
-- What a published response is to be, told without the loops of SendRefresh (src/psych.cc): the
-- messages of the rows, and what each session has submitted.
use psych.Prelude.{
  ℕ, zero, suc, Bool, true, false, Option, none, some, List, [], ◌∷◌, ◌++◌, ◌≡◌, refl, ap, sym, ◌∙◌,
  arith, length, get_elem?, map, All, bump, Bool-cases, inl, inr,
}
use mathlib.Core.List.{append_assoc, append-nil}
use psych.Prelude.Bytes.{Bytes}
use psych.Messages.{FieldEntry, MarketPrice, market_price_refresh}
use psych.Platform.{Platform}
use psych.Store.{Session, ItemStream, Provider, Submission}
use psych.Provider.Streams.{msgs_sent}
use psych.Provider.Coverage.Publish.{published, all_published}
use psych.Http.Table.{Row}
use psych.Refresh.Fields.{common_fields}
use psych.Refresh.Aligned.{mapped}
use psych.Refresh.Rows.{NameMap, Batch, find_name, generate_pe_lock}

-- A message with the tokens of its stream, one for each session.
abbrev pub Delivery : Type 0
Delivery = List (Option ℕ) × MarketPrice

module _ (plat : Platform) (b : Batch plat) where
  abbrev pub columns_of : List Bytes → List plat.Double → List FieldEntry
  columns_of [] values = []
  columns_of (first ∷ columns) values = mapped plat b.resource.fields columns values

  -- the message of a row: the common fields, and those of the columns behind the first
  abbrev pub row_message : Provider → ItemStream → Bytes → Row plat → MarketPrice
  row_message p st topic row = record {
    name = st.rfa_name;
    service_name = b.config.service_name;
    rwf_major = p.min_rwf_major;
    rwf_minor = p.min_rwf_minor;
    fields =
        common_fields b.resource topic b.doc.stamp.engine_version b.closed
        ++ columns_of b.doc.columns row.1;
    permission = generate_pe_lock plat b.config b.resource;
  }

  abbrev pub row_delivery : Provider → Row plat → Bytes → Option ItemStream → List Delivery
  row_delivery p row topic none = []
  row_delivery p row topic (some st) = (st.token, row_message p st topic row) ∷ []

  -- a sector that is not mapped has no message
  abbrev pub mapped_delivery : Provider → Row plat → Option (Bytes × ℕ) → List Delivery
  mapped_delivery p row none = []
  mapped_delivery p row (some (topic, q)) = row_delivery p row topic (get_elem? p.streams q)

  -- the messages of the rows, in order
  abbrev pub deliveries : NameMap → Provider → List (Row plat) → List Delivery
  deliveries names p [] = []
  deliveries names p (row ∷ rest) =
      mapped_delivery p row (find_name row.0 names) ++ deliveries names p rest

-- the provider after messages that no exception meets
abbrev pub deliver_one : Provider → Delivery → Provider
deliver_one p d = record p {
  sessions = all_published (market_price_refresh d.1) d.0 p.sessions;
  stats = bump msgs_sent p.stats;
}

abbrev pub deliver_all : List Delivery → Provider → Provider
deliver_all [] p = p
deliver_all (d ∷ ds) p = deliver_all ds (deliver_one p d)

pub deliver_all-append :
    (xs ys : List Delivery) (p : Provider)
    → deliver_all (xs ++ ys) p ≡ deliver_all ys (deliver_all xs p)
deliver_all-append [] ys p = refl
deliver_all-append (x ∷ xs) ys p = deliver_all-append xs ys (deliver_one p x)

pub deliver_all-streams :
    (ds : List Delivery) (p : Provider) → (deliver_all ds p).streams ≡ p.streams
deliver_all-streams [] p = refl
deliver_all-streams (d ∷ ds) p = deliver_all-streams ds (deliver_one p d)

module _ (plat : Platform) (b : Batch plat) (names : NameMap) where
  same_row :
      (p : Provider) (d : Delivery) (row : Row plat) (topic : Bytes) (o : Option ItemStream)
      → row_delivery plat b (deliver_one p d) row topic o ≡ row_delivery plat b p row topic o
  same_row p d row topic none = refl
  same_row p d row topic (some st) = refl

  same_mapped :
      (p : Provider) (d : Delivery) (row : Row plat) (o : Option (Bytes × ℕ))
      → mapped_delivery plat b (deliver_one p d) row o ≡ mapped_delivery plat b p row o
  same_mapped p d row none = refl
  same_mapped p d row (some (topic, q)) = same_row p d row topic (get_elem? p.streams q)

  same_deliveries_one :
      (p : Provider) (d : Delivery) (rows : List (Row plat))
      → deliveries plat b names (deliver_one p d) rows ≡ deliveries plat b names p rows
  same_deliveries_one p d [] = refl
  same_deliveries_one p d (row ∷ rows) =
      rw (same_mapped p d row (find_name row.0 names), same_deliveries_one p d rows) refl

  -- What is delivered does not change the messages that follow.
  pub same_deliveries :
      (ds : List Delivery) (p : Provider) (rows : List (Row plat))
      → deliveries plat b names (deliver_all ds p) rows ≡ deliveries plat b names p rows
  same_deliveries [] p rows = refl
  same_deliveries (d ∷ ds) p rows =
      same_deliveries ds (deliver_one p d) rows ∙ same_deliveries_one p d rows

-- the token of a session in the tokens of a stream
abbrev pub token_of : Option (Option ℕ) → Option ℕ
token_of none = none
token_of (some t) = t

-- what session `i` submits of the messages, each under its own token
abbrev pub submissions : ℕ → List Delivery → List Submission
submissions i ds =
    map (λ d. record { msg = market_price_refresh d.1; token = token_of (get_elem? d.0 i) }) ds

abbrev pub unless_muted : Bool → List Submission → List Submission
unless_muted true sent = []
unless_muted false sent = sent

-- A session with what it has sent besides: nothing, where it is muted.
abbrev pub Extended : Session → List Submission → Session → Type 0
Extended s sent s' = (s'.wire ≡ s.wire ++ unless_muted s.is_muted sent) × (s'.is_muted ≡ s.is_muted)

-- A message has a token for each of n sessions.
abbrev pub Fits : ℕ → Delivery → Type 0
Fits n d = length d.0 ≡ n

length-all_published :
    (d : Delivery) (ss : List Session)
    → Fits (length ss) d
    → length (all_published (market_price_refresh d.1) d.0 ss) ≡ length ss
length-all_published ([], m) [] h = refl
length-all_published ([], m) (s ∷ ss) h = absurd (omega arith)
length-all_published (t ∷ ts, m) [] h = absurd (omega arith)
length-all_published (t ∷ ts, m) (s ∷ ss) h = ap suc (length-all_published (ts, m) ss (omega arith))

published-Extended :
    (m : MarketPrice) (t : Option ℕ) (s : Session)
    → Extended s
        (record { msg = market_price_refresh m; token = t } ∷ [])
        (published (market_price_refresh m) t s)
published-Extended m t s = elim (Bool-cases s.is_muted) [
  | inl muted ↦ rw muted (sym (append-nil s.wire), refl)
  | inr heard ↦ rw heard (refl, refl)
]

one_lem :
    (d : Delivery) (ss : List Session) (i : ℕ) (s : Session)
    → Fits (length ss) d
    → get_elem? ss i ≡ some s
    → (s' : Session) × (get_elem? (all_published (market_price_refresh d.1) d.0 ss) i ≡ some s')
      × Extended s (submissions i (d ∷ [])) s'
one_lem d [] i s h at = absurd (cc at)
one_lem ([], m) (x ∷ ss) i s h at = absurd (omega arith)
one_lem (t ∷ ts, m) (x ∷ ss) zero s h at =
    let same : s ≡ x = cc in
    (
      published (market_price_refresh m) t s,
      ap (λ y. some (published (market_price_refresh m) t y)) (sym same),
      published-Extended m t s,
    )
one_lem (t ∷ ts, m) (x ∷ ss) (suc i) s h at = one_lem (ts, m) ss i s (omega arith) at

unless_muted-append :
    (m : Bool) (xs ys : List Submission)
    → unless_muted m xs ++ unless_muted m ys ≡ unless_muted m (xs ++ ys)
unless_muted-append true xs ys = refl
unless_muted-append false xs ys = refl

unless_muted_none : (m : Bool) → unless_muted m [] ≡ []
unless_muted_none true = refl
unless_muted_none false = refl

Extended-trans :
    (s s1 s2 : Session) (xs ys : List Submission)
    → Extended s xs s1
    → Extended s1 ys s2
    → Extended s (xs ++ ys) s2
Extended-trans s s1 s2 xs ys (wire1, mute1) (wire2, mute2) = (
  wire2
      ∙ ap (λ m. s1.wire ++ unless_muted m ys) mute1
      ∙ ap (λ w. w ++ unless_muted s.is_muted ys) wire1
      ∙ append_assoc s.wire (unless_muted s.is_muted xs) (unless_muted s.is_muted ys)
      ∙ ap (λ r. s.wire ++ r) (unless_muted-append s.is_muted xs ys),
  mute2 ∙ mute1,
)

pub length-deliver_all :
    (ds : List Delivery) (p : Provider) (n : ℕ)
    → length p.sessions ≡ n
    → All (Fits n) ds
    → length (deliver_all ds p).sessions ≡ n
length-deliver_all [] p n len fits = len
length-deliver_all (d ∷ ds) p n len (fit, fits) =
    length-deliver_all ds (deliver_one p d) n
      (length-all_published d p.sessions (fit ∙ sym len) ∙ len) fits

-- Messages that fit the sessions reach each session that is not muted, once and in order, and change
-- neither the number of the sessions nor which of them are muted.
pub deliver_all-Extended :
    (ds : List Delivery) (p : Provider) (n i : ℕ) (s : Session)
    → length p.sessions ≡ n
    → All (Fits n) ds
    → get_elem? p.sessions i ≡ some s
    → (s' : Session) × (get_elem? (deliver_all ds p).sessions i ≡ some s')
      × Extended s (submissions i ds) s'
deliver_all-Extended [] p n i s len fit at = (
  s,
  at,
  (sym (append-nil s.wire) ∙ ap (λ r. s.wire ++ r) (sym (unless_muted_none s.is_muted)), refl),
)
deliver_all-Extended (d ∷ ds) p n i s len (fit, fits) at =
    let here : Fits (length p.sessions) d = fit ∙ sym len in
    let (s1, at1, first) = one_lem d p.sessions i s here at in
    let (s2, at2, rest) =
      deliver_all-Extended ds (deliver_one p d) n i s1
        (length-all_published d p.sessions here ∙ len) fits at1 in
    (s2, at2, Extended-trans s s1 s2 (submissions i (d ∷ [])) (submissions i ds) first rest)
