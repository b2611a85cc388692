-- ===== src/Life/Stages.antt =====
-- The stages of `Init`, and `Clear` and `Destroy` of src/psych.cc: which members of `psych_t` are held.
-- The stage of libcurl's own count is in Life/Curl.
use psych.Prelude.{ℕ, Bool, true, false, List, [], ◌∷◌, ◌++◌, ◌==◌, if◌then◌else◌}

-- The members that Init sets, in the order in which it does; `streams` are the item streams and
-- the maps of names to them, `tcl` is the registration of the Tcl API. One loop fills `connections_` and
-- these, each resource's connection before its streams.
pub data Part : Type 0 where
  multipass rfa event_queue log provider connections streams event_pump event_thread snmp_agent tcl
        timer timer_thread :
      Part

-- What comes of one stage: nothing is made, or something that is kept although the stage fails, or
-- what was wanted.
pub data Attempt : Type 0 where
  not_made half_made made : Attempt

abbrev number : Part → ℕ
number multipass = 0
number rfa = 1
number event_queue = 2
number log = 3
number provider = 4
number streams = 5
number event_pump = 6
number event_thread = 7
number snmp_agent = 8
number tcl = 9
number timer = 10
number timer_thread = 11
number connections = 12

abbrev pub holds : List Part → Part → Bool
holds [] p = false
holds (q ∷ rest) p = if number q == number p then true else holds rest p

-- A build as an application has neither message pump nor Tcl API; the agent is spawned where it is
-- enabled.
unfoldable pub stages : (is_application is_snmp_enabled : Bool) → List Part
stages is_application is_snmp_enabled =
    (multipass ∷ rfa ∷ event_queue ∷ log ∷ provider ∷ connections ∷ streams ∷ [])
    ++ (if is_application then [] else event_pump ∷ event_thread ∷ [])
    ++ (if is_snmp_enabled then snmp_agent ∷ [] else [])
    ++ (if is_application then [] else tcl ∷ [])
    ++ (timer ∷ timer_thread ∷ [])

-- one stage, given what the stages after it do
abbrev pub stage : Part → Attempt → List Part × Bool → List Part × Bool
stage p not_made later = ([], false)
stage p half_made later = (p ∷ [], false)
stage p made (held, ok) = (p ∷ held, ok)

-- `Init`: the members that it leaves set, and what it returns
unfoldable pub init : (Part → Attempt) → List Part → List Part × Bool
init attempt [] = ([], true)
init attempt (p ∷ rest) = stage p (attempt p) (init attempt rest)

-- what `Clear` releases; it leaves `connections_` as they are
abbrev pub clear_order : List Part
clear_order =
    timer_thread ∷ timer ∷ snmp_agent ∷ event_thread ∷ event_pump ∷ streams ∷ provider ∷ log
    ∷ event_queue ∷ rfa ∷ multipass ∷ []

-- `Clear`: what it releases, in order, of what is held
unfoldable pub release : List Part → List Part → List Part
release held [] = []
release held (p ∷ rest) = let later = release held rest in if holds held p then p ∷ later else later

unfoldable pub clear : List Part → List Part
unfolding release
clear held = release held clear_order

-- what is still held after the parts that were released
unfoldable pub without : List Part → List Part → List Part
without gone [] = []
without gone (p ∷ rest) = let later = without gone rest in if holds gone p then later else p ∷ later

-- `init` of the plug-in, whose configuration is read: after a failure it clears and throws
abbrev pub after_init : List Part × Bool → List Part × Bool
after_init (held, true) = (held, true)
after_init (held, false) = (without (clear held) held, false)

unfoldable pub plugin_init : (Part → Attempt) → Bool → List Part × Bool
unfolding init stages clear without
plugin_init attempt is_snmp_enabled = after_init (init attempt (stages false is_snmp_enabled))

-- `Destroy`: the Tcl API is unregistered, and the rest is cleared
unfoldable pub destroy : List Part → List Part
unfolding clear without
destroy held = without (clear (without (tcl ∷ []) held)) (without (tcl ∷ []) held)
