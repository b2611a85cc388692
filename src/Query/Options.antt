-- ===== src/Query/Options.antt =====
-- The options that `httpPsychQuery` of src/psych.cc sets on the handle of a connection, in order. A
-- failure to set one is logged, and the next is set.
use psych.Prelude.{Bool, true, false, List, [], ◌∷◌, ◌++◌, if◌then◌else◌, is_empty}
use psych.Prelude.Int.{ℤ}
use psych.Prelude.Bytes.{Bytes, atol}
use psych.Config.{Config}
use psych.Http.Transfer.{Connection}

-- `CURLOPT_…`; an option whose value is fixed, or is the connection, has no argument
pub data CurlOption : Type 0 where
  maxfilesize connecttimeout_ms timeout_ms dns_cache_timeout timevalue : ℤ → CurlOption
  url accept_encoding proxy : Bytes → CurlOption
  headerfunction writefunction writeheader writedata private header fresh_connect ipresolve
        useragent filetime timecondition errorbuffer verbose debugfunction :
      CurlOption

-- `QUERY_HTTP_KEEPALIVE` and `QUERY_IF_MODIFIED_SINCE`
pub record Flags : Type 0 where
  pub keepalive : Bool
  pub if_modified_since : Bool

-- the flags of `OnTimer`, of `tclPsychRepublish` and of `tclPsychHardRepublish`
abbrev pub timer_flags : Flags
timer_flags = record { keepalive = true; if_modified_since = true }

abbrev pub republish_flags : Flags
republish_flags = record { keepalive = true; if_modified_since = false }

abbrev pub hard_republish_flags : Flags
hard_republish_flags = record { keepalive = false; if_modified_since = false }

-- an option that is set where a text is configured
unfoldable pub given : Bytes → CurlOption → List CurlOption
given text option = if is_empty text then [] else option ∷ []

unfoldable pub first_options : Config → Connection → List CurlOption
first_options config c =
    maxfilesize (atol config.maximum_response_size)
    ∷ url c.url
    ∷ headerfunction
    ∷ writefunction
    ∷ writeheader
    ∷ writedata
    ∷ private
    ∷ header
    ∷ []

unfoldable pub connection_options : Config → Flags → List CurlOption
unfolding given
connection_options config flags =
    (if flags.keepalive then [] else fresh_connect ∷ [])
    ++ (given config.connect_timeout_ms (connecttimeout_ms (atol config.connect_timeout_ms))
        ++ (ipresolve
            ∷ (given config.timeout_ms (timeout_ms (atol config.timeout_ms))
                ++ (given config.dns_cache_timeout
                      (dns_cache_timeout (atol config.dns_cache_timeout))
                    ++ (useragent ∷ filetime ∷ [])))))

-- the If-Modified-Since header
unfoldable pub condition_options : Flags → Connection → List CurlOption
condition_options flags c =
    if flags.if_modified_since then timecondition ∷ timevalue c.last_filetime ∷ [] else []

-- `is_verbose` is VLOG_IS_ON (10)
unfoldable pub last_options : Config → (is_verbose : Bool) → List CurlOption
unfolding given
last_options config is_verbose =
    given config.request_http_encoding (accept_encoding config.request_http_encoding)
    ++ (given config.http_proxy (proxy config.http_proxy)
        ++ (errorbuffer ∷ (if is_verbose then verbose ∷ debugfunction ∷ [] else [])))

unfoldable pub handle_options : Config → Flags → (is_verbose : Bool) → Connection → List CurlOption
unfolding first_options connection_options condition_options last_options
handle_options config flags is_verbose c =
    first_options config c
    ++ (connection_options config flags
        ++ (condition_options flags c ++ last_options config is_verbose))
