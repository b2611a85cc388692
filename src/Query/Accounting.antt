-- ===== src/Query/Accounting.antt =====
-- What becomes of the transfers of a query (src/psych.cc, httpPsychQuery): the counters against the
-- queue.
use psych.Prelude.{
  ℕ, ◌+◌, ◌%◌, Option, none, some, List, [], ◌∷◌, ◌≡◌, ◌⊎◌, inl, inr, refl, ◌∙◌, arith, ltb, ◌==◌,
  length, get_elem?, Stats, u32_mod, Bool-cases, Option-cases,
}
use mathlib.Core.Path.{subst}
use psych.Prelude.Bytes.{Bytes, codes, starts_with}
use psych.Config.{Config}
use psych.Platform.{Platform, Ptime}
use psych.Http.Counters.{http_request_sent, http_malformed, http_retries_exceeded}
use psych.Http.Header.{Stamp, Parsed, go, fail, escape}
use psych.Http.Table.{Document}
use psych.Http.Transfer.{Connection}
use psych.Http.Response.Checks.{
  Response, State, Verdict, accepted, refused, crashed, threw, count_status, drift, close_drift,
  parse_payload, verdict_of, within_threshold, check_filetime, check_payload, check_type,
  on_http_response, minimum_size, psych_magic,
}
use psych.Http.Response.Verdicts.{count_status-counts, is_unknown, offset}
use psych.Refresh.{NameMap, Published, published_all, interrupted, faulted}
use psych.Query.Round.{
  Query, Transfer, Ended, running, thrown, dead, and_go_on, erase, dequeue, after_refresh,
  after_response, transferred, before, on_transfer, process,
}

-- The counters that `OnHttpResponse` has no hand in.
abbrev pub Foreign : ℕ → Type 0
Foreign k = (k ≡ http_request_sent) ⊎ (k ≡ http_malformed) ⊎ (k ≡ http_retries_exceeded)

module _ (plat : Platform) (config : Config) (r : Response) (stamp : Stamp) (k : ℕ)
    (f : Foreign k) where
  count_status_foreign : (s : Stats) → count_status r.code s k ≡ s k
  count_status_foreign s = ground (arith, count_status-counts r.code k s)

  verdict_of_foreign :
      (st : State) (o : Parsed (Document plat)) → (verdict_of plat st o).1.stats k ≡ st.stats k
  verdict_of_foreign st (go doc) = elim (Option-cases doc.stamp.close_time) [
    | inl e ↦ unfold close_drift in rw e refl
    | inr (t, e) ↦ unfold close_drift in rw e (ground arith)
  ]
  verdict_of_foreign st fail = refl
  verdict_of_foreign st escape = refl

  parse_payload_foreign : (st : State) → (parse_payload plat stamp st).1.stats k ≡ st.stats k
  unfolding parse_payload
  parse_payload_foreign st = verdict_of_foreign st _

  check_filetime_foreign :
      (st : State) → (check_filetime plat config r stamp st).1.stats k ≡ st.stats k
  unfolding check_filetime
  check_filetime_foreign st = elim (Bool-cases (is_unknown r.filetime)) [
    | inl unknown ↦ rw unknown (parse_payload_foreign st)
    | inr known ↦ elim (Bool-cases (within_threshold config (offset plat config r stamp st))) [
      | inl near ↦ rw (known, near) (parse_payload_foreign _ ∙ ground arith)
      | inr far ↦ rw (known, far) (ground arith)
    ]
  ]

  drift_foreign : (o : Ptime) (c : Connection) (s : Stats) → drift o c s k ≡ s k
  unfolding drift
  drift_foreign none c s = refl
  drift_foreign (some t) c s = ground arith

  check_payload_foreign :
      (st : State) → (check_payload plat config r stamp st).1.stats k ≡ st.stats k
  unfolding check_payload
  check_payload_foreign st =
      elim (Bool-cases (ltb (length st.connection.payload) (minimum_size config))) [
        | inl small ↦ rw small refl
        | inr large ↦ elim (Bool-cases (starts_with psych_magic st.connection.payload)) [
          | inl magic ↦
              rw (large, magic)
                (check_filetime_foreign _
                  ∙ drift_foreign st.connection.httpd_ptime st.connection st.stats)
          | inr other ↦ rw (large, other) refl
        ]
      ]

  check_type_foreign :
      (t : Option Bytes) (st : State) → (check_type plat config r t stamp st).1.stats k ≡ st.stats k
  unfolding check_type
  check_type_foreign none st = refl
  check_type_foreign (some t) st = elim (Bool-cases (starts_with (codes "text/plain") t)) [
    | inl text ↦ rw text (check_payload_foreign st)
    | inr other ↦ rw other refl
  ]

  pub on_http_response_foreign :
      (st : State) → (on_http_response plat config r stamp st).1.stats k ≡ st.stats k
  unfolding on_http_response
  on_http_response_foreign st = elim (Bool-cases (r.code == 200)) [
    | inl ok ↦ rw ok (check_type_foreign r.content_type _ ∙ count_status_foreign st.stats)
    | inr other ↦ rw other (count_status_foreign st.stats)
  ]

pub and_go_on-running :
    (r : Ended) (next : Query → Ended) (q' : Query)
    → and_go_on r next ≡ running q'
    → (x : Query) × (r ≡ running x) × (next x ≡ running q')
and_go_on-running (running x) next q' h = (x, refl, h)
and_go_on-running (thrown x) next q' h = cc
and_go_on-running dead next q' h = cc

pub running_inj : (x y : Query) → running x ≡ running y → x ≡ y
running_inj x y h = cc h

erase-length : (i : ℕ) (l rest : List ℕ) → erase i l ≡ some rest → length l ≡ length rest + 1
unfolding erase
erase-length i [] rest h = cc
erase-length i (j ∷ l) rest h = elim (Option-cases (erase i l)) [
  | inl e ↦ ground (arith, e)
  | inr (l', e) ↦ ground (arith, e, erase-length i l l' e)
]

-- Each transfer leaves the queue or is malformed: the number that has happened is `n`.
abbrev pub Accounted : ℕ → Query → Query → Type 0
Accounted n q q' =
    (q'.stats http_malformed + length q.pending) % u32_mod
    ≡ (q.stats http_malformed + n + length q'.pending) % u32_mod

module _ (plat : Platform) (config : Config) (names : ℕ → NameMap) where
  dequeue-Accounted :
      (i : ℕ) (q q' : Query) → dequeue q (erase i q.pending) ≡ running q' → Accounted 1 q q'
  dequeue-Accounted i q q' = elim (Option-cases (erase i q.pending)) [
    | inl e ↦ rw e (λ h. absurd (cc h))
    | inr (rest, e) ↦ rw e λ h.
        subst (λ (x : Query). Accounted 1 q x) (running_inj _ q' h)
          (omega (arith, erase-length i q.pending rest e))
  ]

  after_refresh-Accounted :
      (i : ℕ) (q q' : Query) (o : Published) → after_refresh i q o ≡ running q' → Accounted 1 q q'
  unfolding after_refresh
  after_refresh-Accounted i q q' (published_all p) h =
      dequeue-Accounted i (record q { provider = p }) q' h
  after_refresh-Accounted i q q' (interrupted p) h =
      dequeue-Accounted i (record q { provider = p }) q' h
  after_refresh-Accounted i q q' faulted h = cc

  after_response-Accounted :
      (t : Transfer) (c : Connection) (q q' : Query) (v : Verdict plat)
      → after_response plat config (names t.index) t c q v ≡ running q'
      → Accounted 1 q q'
  unfolding after_response
  after_response-Accounted t c q q' (accepted doc) h = after_refresh-Accounted t.index q q' _ h
  after_response-Accounted t c q q' refused h =
      subst (λ (x : Query). Accounted 1 q x) (running_inj _ q' h) (omega arith)
  after_response-Accounted t c q q' crashed h = cc
  after_response-Accounted t c q q' threw h = cc

  on_transfer-Accounted :
      (t : Transfer) (q q' : Query) (o : Option Connection)
      → on_transfer plat config names t q o ≡ running q'
      → Accounted 1 q q'
  unfolding on_transfer
  on_transfer-Accounted t q q' none h = cc
  on_transfer-Accounted t q q' (some c) h =
      let st : State = record { connection = transferred t c; stats = q.stats } in
      let (verdict, after) = on_http_response plat config t.response (before t) st in
      omega (
        arith,
        on_http_response_foreign plat config t.response (before t) http_malformed (inr (inl refl))
            st,
        after_response-Accounted t c _ q' verdict h,
      )

  -- If the transfers of a round are all dealt with, each of them has either taken its connection
  -- from the queue or is counted as malformed.
  pub process-Accounted :
      (ts : List Transfer) (q q' : Query)
      → process plat config names ts q ≡ running q'
      → Accounted (length ts) q q'
  unfolding process
  process-Accounted [] q q' h =
      subst (λ (x : Query). Accounted 0 q x) (running_inj q q' h) (omega arith)
  process-Accounted (t ∷ ts) q q' h =
      let (x, first, later) =
        and_go_on-running (on_transfer plat config names t q (get_elem? q.connections t.index)) _ q'
          h in
      omega (
        arith,
        on_transfer-Accounted t q x (get_elem? q.connections t.index) first,
        process-Accounted ts x q' later,
      )
