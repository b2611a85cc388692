-- ===== src/Query/Round.antt =====
-- One round of `httpPsychQuery`: every pending connection is prepared, libcurl runs the transfers, and
-- what it reports is dealt with. The options that are set on a handle are in Query/Options.
use psych.Prelude.{
  ℕ, Bool, true, false, Option, none, some, List, [], ◌∷◌, ◌==◌, if◌then◌else◌, length, get_elem?,
  set, Stats, bump, add_to,
}
use psych.Prelude.Int.{ℤ}
use psych.Prelude.Bytes.{Bytes, atol}
use psych.Config.{Config}
use psych.Platform.{Platform, Ptime}
use psych.Store.{Provider}
use psych.Session.Tokens.{SubmitResult}
use psych.Http.Counters.{http_request_sent, http_malformed}
use psych.Http.Transfer.{Connection, receive}
use psych.Http.Header.{Stamp}
use psych.Http.Response.{Response, Verdict, accepted, refused, crashed, threw, on_http_response}
use psych.Refresh.{NameMap, Published, published_all, interrupted, faulted, send_refresh}

-- What a query works on. `pending` has the positions of the connections to try, and `sleeps` the
-- arguments of the calls of Sleep.
pub record Query : Type 0 where
  pub provider : Provider
  pub connections : List Connection
  pub stats : Stats
  pub pending : List ℕ
  pub sleeps : List ℤ

-- One completed transfer: the connection, the server's date and the chunks of the payload that came
-- in, and what RFA does when the response is published. `engine_version` is what the variable held
-- before.
pub record Transfer : Type 0 where
  pub index : ℕ
  pub response : Response
  pub date : Ptime
  pub chunks : List Bytes
  pub engine_version : Bytes
  pub answers : ℕ → ℕ → SubmitResult

-- What the environment does in one round: which handles curl_easy_init makes, which capacity
-- `reserve` leaves (`none` is an exception), which transfers complete, and the time since the start
-- of the query when they have.
pub record RoundEnv : Type 0 where
  pub makes_handle : ℕ → Bool
  pub reserve : ℤ → Option ℕ
  pub completed : List Transfer
  pub elapsed_ms : ℤ

-- How a part of the query ends: it goes on, an exception has left it, or the process is gone.
pub data Ended : Type 0 where
  running thrown : Query → Ended
  dead : Ended

abbrev pub and_go_on : Ended → (Query → Ended) → Ended
and_go_on (running q) next = next q
and_go_on (thrown q) next = thrown q
and_go_on dead next = dead

-- A position is a pointer to a connection; there is none behind a position out of range.

-- a connection before its transfer
unfoldable pub prepared : Option ℕ → Bool → ℤ → Connection → Option Connection
prepared room false t0 c = some (record c { handle = false })
prepared none true t0 c = none
prepared (some n) true t0 c =
    some (record c {
      handle = true;
      payload = [];
      capacity = n;
      request_ptime = t0;
      httpd_ptime = none;
    })

abbrev pub put : Query → ℕ → Option Connection → Ended
put q i none = thrown q
put q i (some c) = running (record q { connections = set q.connections i c })

abbrev pub prepare_at : RoundEnv → Config → ℤ → ℕ → Query → Option Connection → Ended
prepare_at env config t0 i q none = dead
prepare_at env config t0 i q (some c) =
    put q i (prepared (env.reserve (atol config.maximum_response_size)) (env.makes_handle i) t0 c)

-- the loop that prepares the pending connections
unfoldable pub prepare : RoundEnv → Config → ℤ → List ℕ → Query → Ended
unfolding prepared
prepare env config t0 [] q = running q
prepare env config t0 (i ∷ rest) q =
    and_go_on (prepare_at env config t0 i q (get_elem? q.connections i))
      λ q'. prepare env config t0 rest q'

-- `pending.erase (std::remove_if (…))` in a queue without repetitions: the element goes, and if it is
-- not there the end iterator is erased
abbrev pub cons_queue : ℕ → Option (List ℕ) → Option (List ℕ)
cons_queue j none = none
cons_queue j (some rest) = some (j ∷ rest)

unfoldable pub erase : ℕ → List ℕ → Option (List ℕ)
erase i [] = none
erase i (j ∷ rest) = if i == j then some rest else cons_queue j (erase i rest)

abbrev pub dequeue : Query → Option (List ℕ) → Ended
dequeue q none = dead
dequeue q (some rest) = running (record q { pending = rest })

-- after `SendRefresh`, whose exceptions are caught
unfoldable pub after_refresh : ℕ → Query → Published → Ended
unfolding erase
after_refresh i q (published_all p) = dequeue (record q { provider = p }) (erase i q.pending)
after_refresh i q (interrupted p) = dequeue (record q { provider = p }) (erase i q.pending)
after_refresh i q faulted = dead

-- after `OnHttpResponse`
unfoldable pub after_response :
    (plat : Platform) → Config → NameMap → Transfer → Connection → Query → Verdict plat → Ended
unfolding after_refresh
after_response plat config names t c q (accepted doc) =
    after_refresh t.index q (send_refresh plat t.answers config c.resource doc names q.provider)
after_response plat config names t c q refused =
    running (record q { stats = bump http_malformed q.stats })
after_response plat config names t c q crashed = dead
after_response plat config names t c q threw = thrown q

-- the connection as libcurl's callbacks leave it
abbrev pub transferred : Transfer → Connection → Connection
transferred t c = record (receive c t.chunks).0 { httpd_ptime = t.date }

abbrev pub before : Transfer → Stamp
before t = record { engine_version = t.engine_version; open_time = none; close_time = none }

unfoldable pub on_transfer :
    (plat : Platform) → Config → (ℕ → NameMap) → Transfer → Query → Option Connection → Ended
unfolding after_response
on_transfer plat config names t q none = dead
on_transfer plat config names t q (some c) =
    let (verdict, st) =
      on_http_response plat config t.response (before t)
        (record { connection = transferred t c; stats = q.stats }) in
    after_response plat config (names t.index) t c
      (record q { connections = set q.connections t.index st.connection; stats = st.stats }) verdict

-- the loop over what curl_multi_info_read yields
unfoldable pub process : (plat : Platform) → Config → (ℕ → NameMap) → List Transfer → Query → Ended
unfolding on_transfer
process plat config names [] q = running q
process plat config names (t ∷ rest) q =
    and_go_on (on_transfer plat config names t q (get_elem? q.connections t.index))
      λ q'. process plat config names rest q'

abbrev count_sent : Query → Query
count_sent q = record q { stats = add_to http_request_sent (length q.pending) q.stats }

unfoldable pub run_round : (plat : Platform) → Config → (ℕ → NameMap) → ℤ → RoundEnv → Query → Ended
unfolding prepare process
run_round plat config names t0 env q =
    and_go_on (prepare env config t0 q.pending q)
      λ q'. process plat config names env.completed (count_sent q')
