-- ===== src/Startup/Streams.antt =====
-- The loops over resources and items in `psych_t::Init` of src/psych.cc.
use psych.Prelude.{ℕ, Option, none, some, List, [], ◌∷◌, ◌++◌, if◌then◌else◌, length}
use psych.Prelude.Bytes.{Bytes, equal}
use psych.Config.{Resource}
use psych.Store.{Provider}
use psych.Provider.Streams.{create_stream}
use psych.Http.Transfer.{Connection, new_connection}
use psych.Refresh.{NameMap}
use psych.Setup.Feed.{emplace}

-- `stream_vector_`: the stream of a RIC
abbrev pub StreamMap : Type 0
StreamMap = List (Bytes × ℕ)

unfoldable pub find_stream : Bytes → StreamMap → Option ℕ
find_stream ric [] = none
find_stream ric ((k, q) ∷ rest) = if equal k ric then some q else find_stream ric rest

-- What Init fills; the maps keyed by resource are ordered by its path.
pub record Board : Type 0 where
  pub provider : Provider
  pub stream_vector : StreamMap
  pub connections : List (Bytes × Connection)
  pub query_vector : List (Bytes × NameMap)

-- the stream for a RIC: a new one, or the one that is there
unfoldable pub stream_for : Bytes → Option ℕ → Provider → StreamMap → ℕ × Provider × StreamMap
unfolding create_stream emplace
stream_for ric none p sv =
    (length p.streams, create_stream p ric, emplace ric (length p.streams) sv)
stream_for ric (some q) p sv = (q, p, sv)

-- the loop over the items of a resource
unfoldable pub create_items :
    List (Bytes × (Bytes × Bytes)) → Provider → StreamMap → NameMap → Provider × StreamMap × NameMap
unfolding find_stream stream_for emplace
create_items [] p sv names = (p, sv, names)
create_items ((sector, (ric, topic)) ∷ rest) p sv names =
    let made = stream_for ric (find_stream ric sv) p sv in
    create_items rest made.1 made.2 (emplace sector (topic, made.0) names)

-- the loop over the resources
unfoldable pub create_resources : Bytes → List Resource → Board → Board
unfolding create_items
create_resources base_url [] b = b
create_resources base_url (r ∷ rest) b =
    let made = create_items r.items b.provider b.stream_vector [] in
    create_resources base_url rest (record {
      provider = made.0;
      stream_vector = made.1;
      connections = emplace r.path (new_connection r (base_url ++ r.path)) b.connections;
      query_vector = emplace r.path made.2 b.query_vector;
    })
