-- ===== src/Query/Backoff.antt =====
-- The waits of a query between its rounds, and how a query ends (src/psych.cc, httpPsychQuery).
use mathlib.Core.List.{append-nil, append_assoc}
use psych.Prelude.{
  ℕ, zero, suc, ◌+◌, ◌*◌, ◌≤◌, Bool, true, false, Option, none, some, List, [], ◌∷◌, ◌++◌, ◌≡◌, inl,
  inr, refl, sym, ◌∙◌, ap, arith, ltb, if◌then◌else◌, is_empty, Stats, Bool-cases, get_elem?,
}
use psych.Prelude.Int.{ℤ, pos, ◌+ℤ◌, ◌-ℤ◌}
use psych.Prelude.Bytes.{atol}
use psych.Config.{Config}
use psych.Platform.{Platform}
use psych.Store.{Provider}
use psych.Refresh.{NameMap}
use psych.Http.Transfer.{Connection}
use psych.Http.Response.Checks.{Verdict, accepted, refused, crashed, threw}
use psych.Refresh.{Published, published_all, interrupted, faulted}
use psych.Query.Round.{
  Transfer, put, prepare_at, prepare, erase, dequeue, after_refresh, after_response, on_transfer,
  process, Query, RoundEnv, Ended, running, thrown, dead, run_round,
}
use psych.Query.Accounting.{and_go_on-running, running_inj}
use psych.Query.Loop.{
  is_zero, first_sleep, next_sleep, in_time, give_up, end_round, slept, run_rounds, retries_of,
  Timing, finish, query_start, http_psych_query,
}

-- The description of the waits: from `n` milliseconds on, doubled each time, up to ten minutes.
abbrev pub doubled : ℕ → ℕ
doubled n = if ltb 600000 (n * 2) then 600000 else n * 2

abbrev pub schedule : ℕ → ℕ → List ℤ
schedule n zero = []
schedule n (suc k) = pos n ∷ schedule (doubled n) k

-- The waits after those of `old`: at most `retries` of them, as described, from `n` on.
pub record Waited (retries n : ℕ) (old : List ℤ) (q : Query) : Type 0 where
  pub count : ℕ
  pub bounded : count ≤ retries
  pub waits : q.sleeps ≡ old ++ schedule n count

module _ (plat : Platform) (config : Config) (names : ℕ → NameMap) (t0 : ℤ) where
  next_sleep-doubled :
      (n : ℕ)
      → is_zero (atol config.retry_delay_ms) ≡ true
      → next_sleep config (pos n) ≡ pos (doubled n)
  unfolding next_sleep ◌+ℤ◌
  next_sleep-doubled n h = rw h (ground arith)

  put-sleeps :
      (q q' : Query) (i : ℕ) (c : Option Connection) → put q i c ≡ running q' → q'.sleeps ≡ q.sleeps
  put-sleeps q q' i none h = cc
  put-sleeps q q' i (some c) h = cc

  prepare_at-sleeps :
      (env : RoundEnv) (i : ℕ) (q q' : Query) (c : Option Connection)
      → prepare_at env config t0 i q c ≡ running q'
      → q'.sleeps ≡ q.sleeps
  prepare_at-sleeps env i q q' none h = cc
  prepare_at-sleeps env i q q' (some c) h = put-sleeps q q' i _ h

  prepare-sleeps :
      (env : RoundEnv) (l : List ℕ) (q q' : Query)
      → prepare env config t0 l q ≡ running q'
      → q'.sleeps ≡ q.sleeps
  unfolding prepare
  prepare-sleeps env [] q q' h = cc
  prepare-sleeps env (i ∷ l) q q' h =
      let (x, first, later) =
        and_go_on-running (prepare_at env config t0 i q (get_elem? q.connections i)) _ q' h in
      prepare-sleeps env l x q' later ∙ prepare_at-sleeps env i q x _ first

  dequeue-sleeps :
      (q q' : Query) (o : Option (List ℕ)) → dequeue q o ≡ running q' → q'.sleeps ≡ q.sleeps
  dequeue-sleeps q q' none h = cc
  dequeue-sleeps q q' (some rest) h = cc

  after_refresh-sleeps :
      (i : ℕ) (q q' : Query) (o : Published)
      → after_refresh i q o ≡ running q'
      → q'.sleeps ≡ q.sleeps
  unfolding after_refresh
  after_refresh-sleeps i q q' (published_all p) h =
      dequeue-sleeps (record q { provider = p }) q' (erase i q.pending) h
  after_refresh-sleeps i q q' (interrupted p) h =
      dequeue-sleeps (record q { provider = p }) q' (erase i q.pending) h
  after_refresh-sleeps i q q' faulted h = cc

  after_response-sleeps :
      (t : Transfer) (c : Connection) (q q' : Query) (v : Verdict plat)
      → after_response plat config (names t.index) t c q v ≡ running q'
      → q'.sleeps ≡ q.sleeps
  unfolding after_response
  after_response-sleeps t c q q' (accepted doc) h = after_refresh-sleeps t.index q q' _ h
  after_response-sleeps t c q q' refused h = cc
  after_response-sleeps t c q q' crashed h = cc
  after_response-sleeps t c q q' threw h = cc

  on_transfer-sleeps :
      (t : Transfer) (q q' : Query) (o : Option Connection)
      → on_transfer plat config names t q o ≡ running q'
      → q'.sleeps ≡ q.sleeps
  unfolding on_transfer
  on_transfer-sleeps t q q' none h = cc
  on_transfer-sleeps t q q' (some c) h = after_response-sleeps t c _ q' _ h

  process-sleeps :
      (ts : List Transfer) (q q' : Query)
      → process plat config names ts q ≡ running q'
      → q'.sleeps ≡ q.sleeps
  unfolding process
  process-sleeps [] q q' h = cc
  process-sleeps (t ∷ ts) q q' h =
      let (x, first, later) =
        and_go_on-running (on_transfer plat config names t q (get_elem? q.connections t.index)) _ q'
          h in
      process-sleeps ts x q' later ∙ on_transfer-sleeps t q x _ first

  run_round-sleeps :
      (env : RoundEnv) (q q' : Query)
      → run_round plat config names t0 env q ≡ running q'
      → q'.sleeps ≡ q.sleeps
  unfolding run_round
  run_round-sleeps env q q' h =
      let (x, first, later) = and_go_on-running (prepare env config t0 q.pending q) _ q' h in
      process-sleeps env.completed _ q' later ∙ prepare-sleeps env q.pending q x first

  no_wait : (retries n : ℕ) (q x : Query) → x.sleeps ≡ q.sleeps → Waited retries n q.sleeps x
  no_wait retries n q x e = record { count = 0; bounded = omega arith; waits = rw append-nil e }

  end_round-sleeps : (q q' : Query) → end_round q ≡ running q' → q'.sleeps ≡ q.sleeps
  end_round-sleeps q q' = elim (Bool-cases (is_empty q.pending)) [
    | inl e ↦ rw e (λ h. cc h)
    | inr e ↦ rw e (λ h. cc h)
  ]

  one_more :
      (r n : ℕ) (q x q' : Query)
      → x.sleeps ≡ q.sleeps
      → Waited r (doubled n) (x.sleeps ++ pos n ∷ []) q'
      → Waited (suc r) n q.sleeps q'
  one_more r n q x q' same w = record {
    count = suc w.count;
    bounded = omega (arith, w.bounded);
    waits =
        w.waits
        ∙ ap (λ l. (l ++ pos n ∷ []) ++ schedule (doubled n) w.count) same
        ∙ rw append_assoc;
  }

  -- the three ways on from a round
  decided-Waited :
      (is_done on_time : Bool) (r n : ℕ) (q x q' : Query) (again : Ended)
      → x.sleeps ≡ q.sleeps
      → (again ≡ running q' → Waited r (doubled n) (x.sleeps ++ pos n ∷ []) q')
      → (if is_done then running x else if on_time then again else running (give_up x)) ≡ running q'
      → Waited (suc r) n q.sleeps q'
  decided-Waited true on_time r n q x q' again same f h =
      no_wait (suc r) n q q' (ap (λ (y : Query). y.sleeps) (sym (running_inj x q' h)) ∙ same)
  decided-Waited false true r n q x q' again same f h = one_more r n q x q' same (f h)
  decided-Waited false false r n q x q' again same f h =
      no_wait (suc r) n q q' (ap (λ (y : Query). y.sleeps) (sym (running_inj _ q' h)) ∙ same)

  run_rounds-Waited :
      (env : ℕ → RoundEnv) (retries k n : ℕ) (q q' : Query)
      → is_zero (atol config.retry_delay_ms) ≡ true
      → run_rounds plat config names t0 env retries k (pos n) q ≡ running q'
      → Waited retries n q.sleeps q'
  unfolding run_rounds
  run_rounds-Waited env zero k n q q' zero_delay h =
      let (x, first, later) = and_go_on-running (run_round plat config names t0 (env k) q) _ q' h in
      no_wait zero n q q' (end_round-sleeps x q' later ∙ run_round-sleeps (env k) q x first)
  run_rounds-Waited env (suc r) k n q q' zero_delay h =
      let (x, first, later) = and_go_on-running (run_round plat config names t0 (env k) q) _ q' h in
      decided-Waited (is_empty x.pending) (in_time config (env k).elapsed_ms) r n q x q' _
        (run_round-sleeps (env k) q x first)
        (λ e. run_rounds-Waited env r (k + 1) (doubled n) (slept (pos n) x) q' zero_delay (
          ap (λ s. run_rounds plat config names t0 env r (k + 1) s (slept (pos n) x))
            (sym (next_sleep-doubled n zero_delay))
          ∙ e))
        later

module _ (plat : Platform) (config : Config) (names : ℕ → NameMap) where
  first_second : is_zero (atol config.retry_delay_ms) ≡ true → first_sleep config ≡ pos 1000
  unfolding first_sleep
  first_second h = rw h refl

  finish-running :
      (td : ℤ) (t : Timing) (e : Ended) (q : Query)
      → (finish td t e).0 ≡ running q
      → (x : Query) × (e ≡ running x) × (x.sleeps ≡ q.sleeps)
  finish-running td t (running x) q h = (x, refl, cc h)
  finish-running td t (thrown x) q h = cc
  finish-running td t dead q h = cc

  -- With no delay configured, a query that is not left by an exception has waited at most as often as
  -- retries are configured, first one second, then twice as long each time, up to ten minutes.
  pub http_psych_query-Waited :
      (env : ℕ → RoundEnv) (t0 t1 : ℤ) (p : Provider) (connections : List Connection)
      (stats : Stats) (timing : Timing) (q : Query)
      → is_zero (atol config.retry_delay_ms) ≡ true
      → (http_psych_query plat config names env t0 t1 p connections stats timing).0 ≡ running q
      → Waited (retries_of (atol config.retry_count)) 1000 [] q
  unfolding http_psych_query
  http_psych_query-Waited env t0 t1 p connections stats timing q zero_delay h =
      let retries = retries_of (atol config.retry_count) in
      let start = query_start p connections stats in
      let (x, ran, same) = finish-running (t1 -ℤ t0) timing _ q h in
      let w = run_rounds-Waited plat config names t0 env retries 0 1000 start x zero_delay (
        ap (λ s. run_rounds plat config names t0 env retries 0 s start)
          (sym (first_second zero_delay))
        ∙ ran) in
      record { count = w.count; bounded = w.bounded; waits = sym same ∙ w.waits }
