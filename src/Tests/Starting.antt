-- ===== src/Tests/Starting.antt =====
-- The streams of one resource: src/psych.cc, Init, from a provider that has none.
use psych.Prelude.{List, [], ◌∷◌, refl}
use psych.Prelude.Bytes.{codes}
use psych.Config.{Resource}
use psych.Provider.Streams.{contains_key}
use psych.Provider.Coverage.Steps.{Covered}
use psych.Startup.Streams.{Board, find_stream, create_resources}
use psych.Startup.Present.{IsBoard, create_resources-IsBoard}
use psych.Startup.Led.{Agrees, create_resources-Covered}
use psych.Tests.Fixture.{provider, resource}
use psych.Tests.Publishing.{provider-Covered}

abbrev board : Board
board = record { provider = provider; stream_vector = []; connections = []; query_vector = [] }

-- two resources that share a RIC
abbrev shared : List Resource
shared = resource ∷ record resource { path = codes "/ETC" } ∷ []

none_yet : Agrees board.provider board.stream_vector
unfolding contains_key find_stream
none_yet = λ k. refl

create_resources-IsBoard_example : IsBoard (create_resources (codes "http://host") shared board)
create_resources-IsBoard_example =
    create_resources-IsBoard (codes "http://host") shared board
      (record { below = tt; present = tt })

create_resources-Covered_example :
    Covered (create_resources (codes "http://host") shared board).provider
create_resources-Covered_example =
    create_resources-Covered (codes "http://host") shared board provider-Covered none_yet
