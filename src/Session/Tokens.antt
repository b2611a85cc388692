-- ===== src/Session/Tokens.antt =====
-- Tokens and submissions of one session (src/session.cc).
use psych.Prelude.{
  ℕ, ◌+◌, Option, none, some, List, [], ◌∷◌, ◌++◌, if◌then◌else◌, set, get_elem?, bump,
}
use psych.Prelude.Bytes.{Bytes}
use psych.Messages.{RespMsg}
use psych.Store.{Session, ItemStream, Provider}
use psych.Session.Counters.{rfa_msgs_sent, tokens_generated}

-- `omm_provider_->generateItemToken()`: the token is `s.generated`.
abbrev pub generate_item_token : Session → Session
generate_item_token s = record s { generated = s.generated + 1 }

-- `CreateItemStream`, with what `*token` holds on entry
unfoldable pub create_item_stream : Session → Option ℕ → Session × Option ℕ
create_item_stream s token = if s.is_muted then (s, token) else (
  record (generate_item_token s) { stats = bump tokens_generated s.stats },
  some s.generated,
)

-- What `submit` does: a status, or `none` where it throws InvalidUsageException.
abbrev pub SubmitResult : Type 0
SubmitResult = Option ℕ

-- `Submit`; `none` is the exception, which leaves the session as it was.
unfoldable pub submit : SubmitResult → Session → RespMsg → Option ℕ → Option (Session × ℕ)
submit none s msg token = none
submit (some status) s msg token = some (
  record s {
    stats = bump rfa_msgs_sent s.stats;
    wire = s.wire ++ (record { msg = msg; token = token } ∷ []);
  },
  status,
)

-- `Send`: a muted session drops the message and answers `false`, 0.
unfoldable pub send : SubmitResult → Session → RespMsg → Option ℕ → Option (Session × ℕ)
unfolding submit
send r s msg token = if s.is_muted then some (s, 0) else submit r s msg token

abbrev pub lock : Option ItemStream → Option ItemStream
lock none = none
lock (some st) = if st.alive then some st else none

-- the assignment to `sp->token[instance_id_]` for a stream that is still alive
unfoldable pub reset_token :
    ℕ → Option ItemStream → List ItemStream × Session → List ItemStream × Session
reset_token p none (streams, s) = (streams, s)
reset_token p (some st) (streams, s) = (
  set streams p (record st { token = set st.token s.instance_id (some s.generated) }),
  record (generate_item_token s) { stats = bump tokens_generated s.stats },
)

-- the loop of `ResetTokens` over the directory
unfoldable pub reset_entries :
    List (Bytes × ℕ) → List ItemStream × Session → List ItemStream × Session
unfolding reset_token
reset_entries [] w = w
reset_entries ((key, p) ∷ rest) w = reset_entries rest (reset_token p (lock (get_elem? w.0 p)) w)

-- `ResetTokens`
unfoldable pub reset_tokens : Provider → Session → List ItemStream × Session
unfolding reset_entries
reset_tokens p s =
    if s.has_omm_provider then reset_entries p.directory (p.streams, s) else (p.streams, s)
