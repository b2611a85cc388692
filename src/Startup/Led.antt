-- ===== src/Startup/Led.antt =====
-- The start-up creates streams of new names alone, so it keeps what `Covered` says of a provider
-- (src/psych.cc, Init; src/provider.cc, CreateItemStream).
use psych.Prelude.{
  ℕ, Bool, true, false, ◌||◌, Option, none, some, List, [], ◌∷◌, ◌++◌, ◌≡◌, refl, sym, ◌∙◌, ap,
  arith, length,
}
use psych.Prelude.Bytes.{Bytes, equal, equal_iff}
use psych.Config.{Resource}
use psych.Store.{Provider}
use psych.Provider.Streams.{create_stream, contains_key}
use psych.Provider.Coverage.Steps.{Covered}
use psych.Provider.Coverage.Reach.{Reach, here, next, creates, Reach-Covered}
use psych.Refresh.{NameMap}
use psych.Setup.Feed.{emplace}
use psych.Startup.Streams.{
  StreamMap, find_stream, Board, stream_for, create_items, create_resources,
}

abbrev is_there : Option ℕ → Bool
is_there none = false
is_there (some q) = true

-- The map of the RICs knows the names that the provider's directory has.
abbrev pub Agrees : Provider → StreamMap → Type 0
Agrees p sv = (k : Bytes) → contains_key k p.directory ≡ is_there (find_stream k sv)

contains_key-append :
    (k name : Bytes) (q : ℕ) (d : List (Bytes × ℕ))
    → contains_key k (d ++ (name, q) ∷ []) ≡ (contains_key k d || equal name k)
unfolding contains_key
contains_key-append k name q [] = ground arith
contains_key-append k name q ((j, n) ∷ d) = ground (arith, contains_key-append k name q d)

find_stream-emplace :
    (k ric : Bytes) (q : ℕ) (sv : StreamMap)
    → is_there (find_stream k (emplace ric q sv)) ≡ (is_there (find_stream k sv) || equal ric k)
unfolding find_stream emplace
find_stream-emplace k ric q [] = ground arith
find_stream-emplace k ric q ((j, n) ∷ sv) =
    ground (arith, find_stream-emplace k ric q sv, equal_iff ric j, equal_iff j k, equal_iff ric k)

stream_for-Agrees :
    (ric : Bytes) (o : Option ℕ) (p : Provider) (sv : StreamMap)
    → Agrees p sv
    → find_stream ric sv ≡ o
    → Agrees (stream_for ric o p sv).1 (stream_for ric o p sv).2
unfolding stream_for create_stream
stream_for-Agrees ric none p sv a h k = rw (a ric ∙ ap is_there h) (
    contains_key-append k ric (length p.streams) p.directory
    ∙ ap (λ b. b || equal ric k) (a k)
    ∙ sym (find_stream-emplace k ric (length p.streams) sv))
stream_for-Agrees ric (some q) p sv a h k = a k

-- From `origin`, new streams alone lead to the provider, and the map still knows its names.
record Led (origin p : Provider) (sv : StreamMap) : Type 0 where
  reach : Reach origin p
  agrees : Agrees p sv

stream_for-Reach :
    (origin : Provider) (ric : Bytes) (o : Option ℕ) (p : Provider) (sv : StreamMap)
    → Reach origin p
    → Agrees p sv
    → find_stream ric sv ≡ o
    → Reach origin (stream_for ric o p sv).1
unfolding stream_for
stream_for-Reach origin ric none p sv r a h = next r (creates p ric (a ric ∙ ap is_there h))
stream_for-Reach origin ric (some q) p sv r a h = r

create_items-Led :
    (origin : Provider) (items : List (Bytes × (Bytes × Bytes))) (p : Provider) (sv : StreamMap)
    (names : NameMap)
    → Led origin p sv
    → Led origin (create_items items p sv names).0 (create_items items p sv names).1
unfolding create_items
create_items-Led origin [] p sv names l = l
create_items-Led origin ((sector, (ric, topic)) ∷ items) p sv names l =
    let made = stream_for ric (find_stream ric sv) p sv in
    create_items-Led origin items made.1 made.2 (emplace sector (topic, made.0) names) (record {
      reach = stream_for-Reach origin ric (find_stream ric sv) p sv l.reach l.agrees refl;
      agrees = stream_for-Agrees ric (find_stream ric sv) p sv l.agrees refl;
    })

create_resources-Led :
    (origin : Provider) (base_url : Bytes) (rs : List Resource) (b : Board)
    → Led origin b.provider b.stream_vector
    → Led origin
        (create_resources base_url rs b).provider
        (create_resources base_url rs b).stream_vector
unfolding create_resources
create_resources-Led origin base_url [] b l = l
create_resources-Led origin base_url (r ∷ rs) b l =
    create_resources-Led origin base_url rs _
      (create_items-Led origin r.items b.provider b.stream_vector [] l)

-- If the provider is covered and the map knows the names of its directory, then the provider is
-- covered after the streams of any resources have been created: no RIC is created twice.
pub create_resources-Covered :
    (base_url : Bytes) (rs : List Resource) (b : Board)
    → Covered b.provider
    → Agrees b.provider b.stream_vector
    → Covered (create_resources base_url rs b).provider
create_resources-Covered base_url rs b c a =
    Reach-Covered c
      (create_resources-Led b.provider base_url rs b (record { reach = here; agrees = a })).reach
