-- ===== src/Http/Response/Verdicts.antt =====
-- When a response is accepted, what it counts, and what it leaves in the connection.
use psych.Prelude.{
  ℕ, ◌+◌, ◌/◌, ◌%◌, ◌≤◌, Bool, true, false, ◌&&◌, ◌||◌, Option, none, some, [], ◌≡◌, ◌⊎◌, inl, inr,
  refl, arith, ltb, leb, ◌==◌, if◌then◌else◌, length, Stats, u32_mod, Bool-cases, ==_iff,
}
use psych.Prelude.Int.{ℤ, pos, negsuc, ◌-ℤ◌, leb_ℤ}
use psych.Prelude.Bytes.{Bytes, codes, starts_with}
use psych.Config.{Config}
use psych.Platform.{Platform, seconds_between}
use psych.Http.Counters.{http_200_received, http_304_received}
use psych.Http.Transfer.{Connection}
use psych.Http.Header.{Parsed, go, fail, escape, Stamp}
use psych.Http.Table.{Document}
use psych.Http.Table.Width.{IsTable, parse_tokens-IsTable}
use psych.Http.Response.Checks.{
  Response, State, accepted, psych_magic, count_status, range_counter, bump_if, minimum_size,
  within_threshold, parse_payload, check_filetime, check_payload, check_type, on_http_response,
  drift, verdict_of,
}

-- Does a response of this code step counter `k`? The range of the code does, and 200 and 304 have
-- counters of their own.
abbrev pub counts : ℕ → ℕ → Bool
counts code k =
    (leb 100 code && ltb code 600 && k == code / 100 + 2)
    || (code == 200 && k == http_200_received)
    || (code == 304 && k == http_304_received)

range_counter-eq :
    (code : ℕ)
    → range_counter code ≡ (if leb 100 code && ltb code 600 then some (code / 100 + 2) else none)
unfolding range_counter
range_counter-eq code = ground arith

bump_if-eq :
    (o : Option ℕ) (k : ℕ) (s : Stats)
    → bump_if o s k
      ≡ (if elim o [ none ↦ false | some i ↦ i == k ] then (s k + 1) % u32_mod else s k)
bump_if-eq none k s = refl
bump_if-eq (some i) k s = ground (arith, ==_iff i k)

-- Each counter goes up by one, modulo 2^32, or stays, as the table says.
pub count_status-counts :
    (code k : ℕ) (s : Stats)
    → count_status code s k ≡ (if counts code k then (s k + 1) % u32_mod else s k)
unfolding count_status
count_status-counts code k s = ground (
  arith,
  range_counter-eq code,
  bump_if-eq (range_counter code) k s,
  bump_if-eq (range_counter code) 9 s,
)

-- What every accepted response went through.
pub record Passed (plat : Platform) (config : Config) (r : Response) (c : Connection)
    (doc : Document plat) : Type 0 where
  pub code : r.code ≡ 200
  pub content_type : Bytes
  pub is_typed : r.content_type ≡ some content_type
  pub is_text : starts_with (codes "text/plain") content_type ≡ true
  pub size : minimum_size config ≤ length c.payload
  pub magic : starts_with psych_magic c.payload ≡ true
  pub file_time :
      (r.filetime ≡ negsuc 0)
      ⊎ (within_threshold config (r.filetime -ℤ seconds_between c.request_ptime (pos 0)) ≡ true)
  pub table : IsTable plat doc

abbrev pub is_unknown : ℤ → Bool
is_unknown t = leb_ℤ t (negsuc 0) && leb_ℤ (negsuc 0) t

pub is_unknown-eq : (t : ℤ) → is_unknown t ≡ true → t ≡ negsuc 0
is_unknown-eq t h = ground arith

module _ (plat : Platform) (config : Config) (r : Response) (stamp : Stamp) where
  abbrev no_document : Document plat
  no_document = record { stamp = stamp; columns = []; rows = [] }

  verdict_of-accepted :
      (st : State) (doc : Document plat) (o : Parsed (Document plat))
      → (verdict_of plat st o).0 ≡ accepted doc
      → o ≡ go doc
  verdict_of-accepted st doc (go x) h = cc
  verdict_of-accepted st doc fail h = cc
  verdict_of-accepted st doc escape h = cc

  parse_payload-accepted :
      (st : State) (doc : Document plat)
      → (parse_payload plat stamp st).0 ≡ accepted doc
      → IsTable plat doc
  unfolding parse_payload
  parse_payload-accepted st doc h =
      parse_tokens-IsTable plat no_document doc (plat.tokenize st.connection.payload) refl
        (verdict_of-accepted st doc _ h)

  abbrev pub offset : State → ℤ
  offset st = r.filetime -ℤ seconds_between st.connection.request_ptime (pos 0)

  check_filetime-accepted :
      (st : State) (doc : Document plat)
      → (check_filetime plat config r stamp st).0 ≡ accepted doc
      → ((r.filetime ≡ negsuc 0) ⊎ (within_threshold config (offset st) ≡ true)) × IsTable plat doc
  unfolding check_filetime
  check_filetime-accepted st doc = elim (Bool-cases (is_unknown r.filetime)) [
    | inl unknown ↦
        rw unknown (λ h. (inl (is_unknown-eq r.filetime unknown), parse_payload-accepted _ doc h))
    | inr known ↦ elim (Bool-cases (within_threshold config (offset st))) [
      | inl near ↦ rw (known, near) (λ h. (inr refl, parse_payload-accepted _ doc h))
      | inr far ↦ rw (known, far) (λ h. absurd (cc))
    ]
  ]

  check_payload-accepted :
      (st : State) (doc : Document plat)
      → (check_payload plat config r stamp st).0 ≡ accepted doc
      → (minimum_size config ≤ length st.connection.payload)
        × (starts_with psych_magic st.connection.payload ≡ true)
        × ((check_filetime plat config r stamp
              (record st { stats = drift st.connection.httpd_ptime st.connection st.stats })).0
            ≡ accepted doc)
  unfolding check_payload
  check_payload-accepted st doc h = ground arith

  check_type-accepted :
      (t : Option Bytes) (st : State) (doc : Document plat)
      → (check_type plat config r t stamp st).0 ≡ accepted doc
      → (content_type : Bytes) × (t ≡ some content_type)
        × (starts_with (codes "text/plain") content_type ≡ true)
        × ((check_payload plat config r stamp st).0 ≡ accepted doc)
  unfolding check_type
  check_type-accepted none st doc h = cc
  check_type-accepted (some t) st doc h = (t, refl, ground arith, ground arith)

  -- A response is accepted only if its status is 200, its content type begins with text/plain, its
  -- payload has the configured size at least and begins with the magic number, its file time is
  -- unknown or within the panic threshold, and its lines parse to a table.
  pub on_http_response-Passed :
      (st : State) (doc : Document plat)
      → (on_http_response plat config r stamp st).0 ≡ accepted doc
      → Passed plat config r st.connection doc
  unfolding on_http_response
  on_http_response-Passed st doc = elim (Bool-cases (r.code == 200)) [
    | inr other ↦ rw other (λ h. absurd (cc))
    | inl ok ↦ rw ok λ h.
        let (t, typed, text, later) = check_type-accepted r.content_type _ doc h in
        let (size, magic, last) = check_payload-accepted _ doc later in
        let (time, table) = check_filetime-accepted _ doc last in
        record {
          code = (==_iff r.code 200).0 ok;
          content_type = t;
          is_typed = typed;
          is_text = text;
          size = size;
          magic = magic;
          file_time = time;
          table = table;
        }
  ]
