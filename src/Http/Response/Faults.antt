-- ===== src/Http/Response/Faults.antt =====
-- How `OnHttpResponse` fails: no exception, one null pointer, and what a refused response leaves.
use psych.Prelude.{false, ◌≡◌, ◌≢◌, inl, inr, arith, is_empty}
use psych.Prelude.Int.{ℤ, pos, negsuc}
use psych.Prelude.Bytes.{Bytes, atol}
use psych.Config.{Config}
use psych.Platform.{Platform}
use psych.Http.Header.{Stamp}
use psych.Http.Table.{Document}
use psych.Http.Response.Checks.{
  Response, State, Verdict, accepted, refused, within_threshold, on_http_response,
}
use psych.Http.Response.Verdicts.{offset, on_http_response-Passed}

module _ (plat : Platform) (config : Config) (r : Response) (stamp : Stamp) where
  -- the verdicts that end well
  data Quiet : Verdict plat → Type 0 where
    quiet_accepted : (doc : Document plat) → Quiet (accepted doc)
    quiet_refused : Quiet refused

  never_within :
      (t : ℤ)
      → is_empty config.panic_threshold ≡ false
      → atol config.panic_threshold ≡ pos 0
      → within_threshold config t ≡ false
  unfolding within_threshold
  never_within t set zero = rw (set, zero) (ground arith)

  -- With the panic threshold configured as 0, which the comment on `panic_threshold` in
  -- src/config.hh gives as the way to disable the check, no response that has a file time is
  -- accepted.
  zero_threshold :
      (st : State) (doc : Document plat)
      → is_empty config.panic_threshold ≡ false
      → atol config.panic_threshold ≡ pos 0
      → r.filetime ≢ negsuc 0
      → (on_http_response plat config r stamp st).0 ≢ accepted doc
  zero_threshold st doc set zero known h =
      elim (on_http_response-Passed plat config r stamp st doc h).file_time [
        | inl e ↦ known e
        | inr near ↦ cc (near, never_within (offset plat config r stamp st) set zero)
      ]
