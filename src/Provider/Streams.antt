-- ===== src/Provider/Streams.antt =====
-- Item streams and sending (src/provider.cc), and the delivery of an RFA event to one session.
use psych.Prelude.{
  ℕ, ◌+◌, Bool, true, false, Option, none, some, List, [], ◌∷◌, ◌++◌, if◌then◌else◌, length,
  get_elem?, set, bump,
}
use psych.Prelude.Bytes.{Bytes, equal}
use psych.Messages.{RespMsg}
use psych.Store.{Session, ItemStream, Provider}
use psych.Session.Tokens.{SubmitResult, create_item_stream, send}
use psych.Session.Events.{LoginEnv, Event, process_event}

-- `PROVIDER_PC_MSGS_SENT`
abbrev pub msgs_sent : ℕ
msgs_sent = 0

-- the loop of `CreateItemStream`: each session fills its slot of the new stream, null before
unfoldable pub create_tokens : List Session → List Session × List (Option ℕ)
create_tokens [] = ([], [])
create_tokens (s ∷ rest) =
    let (s', token) = create_item_stream s none in
    let (rest', tokens) = create_tokens rest in (s' ∷ rest', token ∷ tokens)

unfoldable pub contains_key : Bytes → List (Bytes × ℕ) → Bool
contains_key k [] = false
contains_key k ((j, q) ∷ rest) = if equal j k then true else contains_key k rest

-- `directory_.emplace`: a key that is there already keeps its stream
abbrev pub emplace : Bytes → ℕ → List (Bytes × ℕ) → List (Bytes × ℕ)
emplace k q d = if contains_key k d then d else d ++ ((k, q) ∷ [])

-- `CreateItemStream` on a stream that was just made; its number is that of the streams before it
unfoldable pub create_stream : Provider → Bytes → Provider
unfolding create_tokens contains_key
create_stream p name =
    let (sessions, tokens) = create_tokens p.sessions in
    record p {
      sessions = sessions;
      streams = p.streams ++ (record { rfa_name = name; token = tokens; alive = true } ∷ []);
      directory = emplace name (length p.streams) p.directory;
    }

-- How the loop of `Send` ends: done, left by an exception of `submit`, or at a token that is not
-- there. The sessions before that place keep what was done to them.
pub data Sent : Type 0 where
  all_sent : List Session → Sent
  threw : List Session → Sent
  out_of_range : Sent

abbrev pub keep_first : Session → Sent → Sent
keep_first s (all_sent rest) = all_sent (s ∷ rest)
keep_first s (threw rest) = threw (s ∷ rest)
keep_first s out_of_range = out_of_range

-- one round of the loop of `Send`, given what the rounds after it do
abbrev pub send_first : Session → List Session → Option (Session × ℕ) → Sent → Sent
send_first s rest none later = threw (s ∷ rest)
send_first s rest (some (s', status)) later = keep_first s' later

-- the loop of `Send`; `answers` says what `submit` does at each session
unfoldable pub send_tokens :
    (ℕ → SubmitResult) → RespMsg → ℕ → List (Option ℕ) → List Session → Sent
send_tokens answers msg i tokens [] = all_sent []
send_tokens answers msg i [] (s ∷ rest) = out_of_range
send_tokens answers msg i (t ∷ tokens) (s ∷ rest) =
    send_first s rest (send (answers i) s msg t) (send_tokens answers msg (i + 1) tokens rest)

-- How `Send` ends: it returns, an exception of `submit` leaves it, or it reads a token past the end of
-- the stream's tokens, behind which nothing is known; the provider is then given as it was before.
pub data SendEnd : Type 0 where
  send_returned send_raised send_overran : SendEnd

-- `Send`
abbrev pub finish_send : Provider → Sent → Provider × SendEnd
finish_send p (all_sent sessions) =
    (record p { sessions = sessions; stats = bump msgs_sent p.stats }, send_returned)
finish_send p (threw sessions) = (record p { sessions = sessions }, send_raised)
finish_send p out_of_range = (p, send_overran)

unfoldable pub send_stream :
    (ℕ → SubmitResult) → Provider → ItemStream → RespMsg → Provider × SendEnd
unfolding send_tokens
send_stream answers p st msg = finish_send p (send_tokens answers msg 0 st.token p.sessions)

-- RFA calls `processEvent` of session `i`.
deliver_to : LoginEnv → Provider → ℕ → Event → Option Session → Provider
deliver_to env p i e none = p
deliver_to env p i e (some s) =
    let (s', streams) = process_event env p e s in
    record p { sessions = set p.sessions i s'; streams = streams }

unfoldable pub deliver : LoginEnv → Provider → ℕ → Event → Provider
unfolding deliver_to
deliver env p i e = deliver_to env p i e (get_elem? p.sessions i)
