-- ===== src/Query/Conditional.antt =====
-- The If-Modified-Since header of the queries (src/psych.cc, src/tcl.cc), against the file time of the
-- last response. The query of a Tcl command works on duplicates of the plug-in's connections, which end
-- with it: what a response to it has left in one reaches no query of the timer.
use psych.Prelude.{
  Bool, Option, none, some, List, [], ◌∷◌, ◌++◌, ◌≡◌, ◌≢◌, refl, sym, ap, ◌∙◌, if◌then◌else◌,
  is_empty, ltb, length, ◌==◌, Bool-cases, inl, inr,
}
use mathlib.Core.List.{append-nil, append_assoc}
use psych.Prelude.Int.{negsuc}
use psych.Prelude.Bytes.{atol, Bytes, codes, starts_with}
use psych.Config.{Config}
use psych.Platform.{Platform}
use psych.Http.Header.{Stamp, Parsed, go, fail, escape}
use psych.Http.Table.{Document}
use psych.Http.Transfer.{Connection}
use psych.Http.Response.Checks.{
  Response, State, Verdict, accepted, verdict_of, parse_payload, within_threshold, check_filetime,
  check_payload, check_type, on_http_response, minimum_size, psych_magic,
}
use psych.Http.Response.Verdicts.{is_unknown, is_unknown-eq, offset}
use psych.Query.Options.{
  CurlOption, timecondition, timevalue, fresh_connect, ipresolve, useragent, filetime, errorbuffer,
  verbose, debugfunction, dns_cache_timeout, timeout_ms, connecttimeout_ms, accept_encoding, proxy,
  Flags, given, first_options, connection_options, condition_options, last_options, handle_options,
}

-- the options that make the header: that there is a condition, and its time
abbrev condition_of : CurlOption → List CurlOption
condition_of (timevalue t) = timevalue t ∷ []
condition_of timecondition = timecondition ∷ []
condition_of o = []

abbrev pub conditions : List CurlOption → List CurlOption
conditions [] = []
conditions (o ∷ rest) = condition_of o ++ conditions rest

conditions-append : (l m : List CurlOption) → conditions (l ++ m) ≡ conditions l ++ conditions m
conditions-append [] m = refl
conditions-append (o ∷ l) m =
    ap (λ r. condition_of o ++ r) (conditions-append l m)
    ∙ sym (append_assoc (condition_of o) (conditions l) (conditions m))

conditions-behind : (l m : List CurlOption) → conditions l ≡ [] → conditions (l ++ m) ≡ conditions m
conditions-behind l m h = conditions-append l m ∙ ap (λ r. r ++ conditions m) h

conditions-given :
    (text : Bytes) (o : CurlOption) → condition_of o ≡ [] → conditions (given text o) ≡ []
unfolding given
conditions-given text o h = elim (Bool-cases (is_empty text)) [
  | inl missing ↦ rw missing refl
  | inr there ↦ rw (there, h) refl
]

quiet-append :
    (l m : List CurlOption) → conditions l ≡ [] → conditions m ≡ [] → conditions (l ++ m) ≡ []
quiet-append l m h k = conditions-behind l m h ∙ k

connection_options_lem :
    (config : Config) (flags : Flags) → conditions (connection_options config flags) ≡ []
unfolding connection_options
connection_options_lem config flags =
    let dns = given config.dns_cache_timeout (dns_cache_timeout (atol config.dns_cache_timeout)) in
    let total = given config.timeout_ms (timeout_ms (atol config.timeout_ms)) in
    let connect =
      given config.connect_timeout_ms (connecttimeout_ms (atol config.connect_timeout_ms)) in
    let t4 = dns ++ (useragent ∷ filetime ∷ []) in
    let t3 = total ++ t4 in
    quiet-append (if flags.keepalive then [] else fresh_connect ∷ []) (connect ++ (ipresolve ∷ t3))
      (elim (Bool-cases flags.keepalive) [ inl keep ↦ rw keep refl | inr fresh ↦ rw fresh refl ])
      (quiet-append connect (ipresolve ∷ t3) (conditions-given config.connect_timeout_ms _ refl) (
        quiet-append total t4 (conditions-given config.timeout_ms _ refl) (
          quiet-append dns (useragent ∷ filetime ∷ [])
            (conditions-given config.dns_cache_timeout _ refl) refl)))

last_options_lem :
    (config : Config) (is_verbose : Bool) → conditions (last_options config is_verbose) ≡ []
unfolding last_options
last_options_lem config is_verbose =
    let encoding =
      given config.request_http_encoding (accept_encoding config.request_http_encoding) in
    let through = given config.http_proxy (proxy config.http_proxy) in
    let end = errorbuffer ∷ (if is_verbose then verbose ∷ debugfunction ∷ [] else []) in
    quiet-append encoding (through ++ end) (conditions-given config.request_http_encoding _ refl) (
      quiet-append through end (conditions-given config.http_proxy _ refl)
        (elim (Bool-cases is_verbose) [ inl loud ↦ rw loud refl | inr quiet ↦ rw quiet refl ]))

-- The options of a handle ask for at most one comparison, the connection's.
handle_options_lem :
    (config : Config) (flags : Flags) (is_verbose : Bool) (c : Connection)
    → conditions (handle_options config flags is_verbose c) ≡ conditions (condition_options flags c)
unfolding handle_options first_options
handle_options_lem config flags is_verbose c =
    let behind = condition_options flags c ++ last_options config is_verbose in
    conditions-behind (first_options config c) (connection_options config flags ++ behind) refl
    ∙ conditions-behind (connection_options config flags) behind
        (connection_options_lem config flags)
    ∙ conditions-append (condition_options flags c) (last_options config is_verbose)
    ∙ ap (λ r. conditions (condition_options flags c) ++ r) (last_options_lem config is_verbose)
    ∙ append-nil (conditions (condition_options flags c))

module _ (plat : Platform) (config : Config) (r : Response) (stamp : Stamp) where
  -- An accepted response with a file time has left it in the connection.
  abbrev Kept : Verdict plat × State → Type 0
  Kept (v, st) = (doc : Document plat) → v ≡ accepted doc → st.connection.last_filetime ≡ r.filetime

  verdict_of-Kept :
      (st : State) (o : Parsed (Document plat))
      → st.connection.last_filetime ≡ r.filetime
      → Kept (verdict_of plat st o)
  verdict_of-Kept st (go x) h doc e = h
  verdict_of-Kept st fail h doc e = h
  verdict_of-Kept st escape h doc e = h

  check_filetime-Kept :
      (st : State) → r.filetime ≢ negsuc 0 → Kept (check_filetime plat config r stamp st)
  unfolding check_filetime parse_payload
  check_filetime-Kept st dated = elim (Bool-cases (is_unknown r.filetime)) [
    | inl unknown ↦ absurd (dated (is_unknown-eq r.filetime unknown))
    | inr known ↦ elim (Bool-cases (within_threshold config (offset plat config r stamp st))) [
      | inl near ↦ rw (known, near) (verdict_of-Kept _ _ refl)
      | inr far ↦ rw (known, far) (λ doc h. absurd (cc h))
    ]
  ]

  check_payload-Kept :
      (st : State) → r.filetime ≢ negsuc 0 → Kept (check_payload plat config r stamp st)
  unfolding check_payload
  check_payload-Kept st dated =
      elim (Bool-cases (ltb (length st.connection.payload) (minimum_size config))) [
        | inl small ↦ rw small (λ doc h. absurd (cc h))
        | inr large ↦ elim (Bool-cases (starts_with psych_magic st.connection.payload)) [
          | inl magic ↦ rw (large, magic) (check_filetime-Kept _ dated)
          | inr other ↦ rw (large, other) (λ doc h. absurd (cc h))
        ]
      ]

  check_type-Kept :
      (t : Option Bytes) (st : State)
      → r.filetime ≢ negsuc 0
      → Kept (check_type plat config r t stamp st)
  unfolding check_type
  check_type-Kept none st dated = λ doc h. absurd (cc h)
  check_type-Kept (some t) st dated = elim (Bool-cases (starts_with (codes "text/plain") t)) [
    | inl text ↦ rw text (check_payload-Kept st dated)
    | inr other ↦ rw other (λ doc h. absurd (cc h))
  ]

  on_http_response-Kept :
      (st : State) → r.filetime ≢ negsuc 0 → Kept (on_http_response plat config r stamp st)
  unfolding on_http_response
  on_http_response-Kept st dated = elim (Bool-cases (r.code == 200)) [
    | inl ok ↦ rw ok (check_type-Kept r.content_type _ dated)
    | inr other ↦ rw other (λ doc h. absurd (cc h))
  ]

  -- If a response with a file time is accepted, then the options of the next query of its connection
  -- ask for the resource on the condition that it has changed since that time, by both of the options
  -- that this takes, where the query has the flag for it, and have neither of them where it has not.
  pub on_http_response-handle_options :
      (st : State) (doc : Document plat) (flags : Flags) (is_verbose : Bool)
      → r.filetime ≢ negsuc 0
      → (on_http_response plat config r stamp st).0 ≡ accepted doc
      → conditions (
          handle_options config flags is_verbose
            (on_http_response plat config r stamp st).1.connection)
        ≡ (if flags.if_modified_since then timecondition ∷ timevalue r.filetime ∷ [] else [])
  unfolding condition_options
  on_http_response-handle_options st doc flags is_verbose dated h =
      let c = (on_http_response plat config r stamp st).1.connection in
      handle_options_lem config flags is_verbose c ∙ elim (Bool-cases flags.if_modified_since) [
        | inl on ↦
            rw on
              (ap (λ t. timecondition ∷ timevalue t ∷ []) (on_http_response-Kept st dated doc h))
        | inr off ↦ rw off refl
      ]
