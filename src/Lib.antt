-- ===== src/Lib.antt =====
-- Verification library of psych, a publisher that reads MarketPsych's hourly sentiment tables by
-- HTTP and republishes them as Thomson Reuters market price messages.
--
-- The program's parts, and how they interact:
-- * `config_t` (src/config.hh, src/config.cc) holds the configuration; Config.antt has its structures,
--   and in `Config.Print` the text that Init logs of them; Setup.antt has its validation, its XML
--   parsers over the DOM as an interface (`Setup.Dom`), and its JSON parsers over the vendored
--   dictionary values as an interface (`Setup.Json`; `Setup.Loaded` describes what these read).
-- * `session_t` (src/session.cc) is one RFA session. It logs in, and is muted until RFA reports a
--   login success, when it publishes the service directory and takes a new token for every item
--   stream. Session.antt: `Session.Tokens` has CreateItemStream, Submit, Send and ResetTokens,
--   `Session.Events` processEvent and all that it calls.
--   `Session.End` is the destructor.
-- * `provider_t` (src/provider.cc) owns the sessions and the item streams, fans a message out to all
--   sessions, and builds the directory. Provider.antt: `Provider.Streams`, `Provider.Directory`,
--   and `Provider.Login` for the start-up of provider and sessions.
-- * `psych_t` (src/psych.cc) asks the web server for each resource, checks and parses what comes
--   back, and publishes each row. Http.antt: `Http.Transfer` is on_http_data, `Http.Response` and
--   `Http.Table` are OnHttpResponse. Refresh.antt is SendRefresh and GeneratePELock,
--   `Refresh.Described` the messages of a response without its loops. Query.antt is
--   httpPsychQuery: the rounds of transfers, the queue of pending connections, the retries and the
--   waits between them, and the options of a handle; `Http.Date` is on_http_header, `Http.Trace`
--   on_http_trace, and `Query.Delivered` takes a transfer callback by callback. Startup.antt has
--   the loops of Init that create the streams, Life.antt the stages of Init, Clear and Destroy, the
--   count of the users of libcurl and the options of its context, Interval.antt GetNextInterval.
--   `Life.Instances` is the list of all plug-ins, which the agent reads, and their numbers.
-- * `main` (src/main.cc) frames the application by the guards of the socket library and of the timer's
--   period, as src/plugin.cc does for the plug-in: Boot.antt. What `psych_t` takes and gives back in
--   between is a parameter there. `Life.Run` is Run (src/psych.cc) from the file to the end of the
--   process, `Life.Pump` the loop that dispatches RFA's events in its main
--   thread (`MainLoop`) or in one of its own (`event_pump_t`, src/psych.hh).
-- * Two kinds of threads ask for a query: the timer's (`OnTimer`, src/psych.cc, and `time_pump_t`,
--   src/psych.hh) and those of the engine that run a Tcl command (src/tcl.cc). Schedule.antt has both,
--   and in `Schedule.Lock` their steps around the mutex that keeps queries apart; `Schedule.Flex` is
--   the text of a FlexRecord, which no command writes. `Schedule.Commands` is the registration.
-- * The SNMP agent answers from the objects of all plug-in instances: Snmp.antt has the four tables of
--   src/psychMIB.cc, `Snmp.Rows` their row iterators, `Snmp.Contexts` the loop contexts, `Snmp.Columns`
--   and `Snmp.Handlers` their handlers; `Snmp.Start` is the start of the agent,
--   `Snmp.Pipe` its sockets, `Snmp.Agent` counts the agents, and `Snmp.Pump` is the loop of their
--   thread (src/snmp_agent.cc).
-- * `rfa_t` (src/rfa.cc) fills the configuration database of RFA; Rfa.antt has the calls, the
--   paths, and the check of RFA's version; `Rfa.Log` is the client of RFA's own log
--   (src/rfa_logging.cc), `Rfa.Print` the text of RFA's messages (src/rfaostream.hh), `Rfa.Errors` that
--   of its errors (src/error.cc).
-- * Store.antt has the objects that provider and sessions share, Messages.antt the messages that they
--   build, Prelude.antt what every part uses.
--
-- A session, a stream and the provider are records, and an operation returns the new ones. A pointer to
-- a stream is its position in the provider's list; an item token is its serial number among those
-- of the session's OMM provider; `wire` lists what RFA has accepted. Performance counters are
-- functions from the enum's positions to numbers below 2^32, and wrap around. Strings are lists of
-- bytes. A call that may throw, read a null pointer or fail a CHECK returns a value that says so.
-- A failed CHECK ends what is modelled, for src/chromium/logging.hh says that it ends the process; the
-- log that is in the repository writes the message and lets the code go on, which is not followed.
--
-- What RFA answers (whether `submit` throws, what `validateMsg` says, which version is negotiated) is
-- an argument of the operation. Platform.antt collects the other third-party code, with no law
-- assumed: floating point, Boost's time parsing, the vendored string utilities, the DACS library. What
-- libcurl reports in each round is an argument of the query, and so are the trees that the parsers
-- read. Loops run over lists, and the rounds of a query over the retries that are left. The loop of
-- GetNextInterval has fuel: one unit is enough where it ends, and no amount is where it does not.
-- `Schedule.Start` is the part of Init that reads the time and the interval from the configuration and
-- starts the timer; whether the thread is spawned is an argument.
-- `long` has 32 bits, as on Windows, where `atol` stops at its bounds; the offset between two clocks is
-- not wrapped, which would take 68 years between them. The options of a handle are what the answers of
-- the server in a query depend on.
--
-- A walk through a table of the agent has fuel, a unit for each row. An iterator is what is left of its
-- list, so that a step past the end shows. A query is two steps of its thread, and what it does is
-- done at its end. The number that sscanf reads for a `%hu` is cut to 16 bits.
--
-- A dispatch of RFA's events is one step, which may wait; which messages it delivers, and what is done
-- with them, is in the modules of the sessions. The text of a number has fuel for each digit, one more
-- than the number, and a trace for each row, one more than there are bytes, which is enough.
--
-- Not modelled: the vendored Chromium and Microsoft code, the lines that are logged (but for the texts
-- of configuration, messages and errors), the registration of the plug-in's type, a call of the
-- engine, and src/rfa_version.cc, a helper of the build. These texts are values of their own: what is
-- logged, the time of the last activity and the statuses that RFA's `submit` returns leave no trace in
-- the states.
pub mod Prelude
pub mod Boot
pub mod Config
pub mod Setup
pub mod Messages
pub mod Store
pub mod Session
pub mod Provider
pub mod Platform
pub mod Http
pub mod Refresh
pub mod Interval
pub mod Query
pub mod Startup
pub mod Rfa
pub mod Life
pub mod Schedule
pub mod Snmp
pub mod Tests
