-- ===== src/Life/Multipass.antt =====
-- The options that `Init` of src/psych.cc sets on the context of all transfers, in order. A failure to
-- set one is logged, and the next is set.
use psych.Prelude.{ℕ, List, [], ◌∷◌, ◌++◌, if◌then◌else◌, is_empty}
use psych.Prelude.Int.{ℤ, pos}
use psych.Prelude.Bytes.{atol}
use psych.Config.{Config}

-- `CURLMOPT_…`
pub data MultiOption : Type 0 where
  pipelining maxconnects : ℤ → MultiOption

abbrev max_sockets_per_host : ℕ
max_sockets_per_host = 6

unfoldable pub multi_options : Config → List MultiOption
multi_options config =
    (if is_empty config.enable_http_pipelining
      then []
      else pipelining (atol config.enable_http_pipelining) ∷ [])
    ++ (maxconnects (pos max_sockets_per_host) ∷ [])
