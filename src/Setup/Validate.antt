-- ===== src/Setup/Validate.antt =====
-- `config_t::Validate` of src/config.cc, and what it checks.
use psych.Prelude.{
  Bool, true, false, not, List, [], ◌∷◌, ◌≡◌, ◌↔◌, arith, is_empty, if◌then◌else◌, All,
}
use psych.Prelude.Int.{pos, ◌<ℤ◌, leb_ℤ}
use psych.Prelude.Bytes.{Bytes, atol}
use psych.Config.{SessionConfig, Resource, Config}

-- a session, its early returns in order
unfoldable pub session_ok : SessionConfig → Bool
session_ok s =
    if is_empty s.session_name
    then false
    else if is_empty s.connection_name
    then false
    else if is_empty s.publisher_name
    then false
    else if is_empty s.rssl_servers
    then false
    else if is_empty s.application_id
    then false
    else if is_empty s.instance_id
    then false
    else if is_empty s.user_name
    then false
    else true

unfoldable pub sessions_ok : List SessionConfig → Bool
unfolding session_ok
sessions_ok [] = true
sessions_ok (s ∷ rest) = if session_ok s then sessions_ok rest else false

unfoldable pub resource_ok : Resource → Bool
resource_ok r =
    if is_empty r.name
    then false
    else if is_empty r.path
    then false
    else if is_empty r.fields
    then false
    else if is_empty r.items
    then false
    else true

unfoldable pub resources_ok : List Resource → Bool
unfolding resource_ok
resources_ok [] = true
resources_ok (r ∷ rest) = if resource_ok r then resources_ok rest else false

-- a size for a buffer: given, and positive
unfoldable pub size_ok : Bytes → Bool
size_ok text = if is_empty text then false else if leb_ℤ (atol text) (pos 0) then false else true

-- `Validate`
unfoldable pub validate : Config → Bool
unfolding sessions_ok resources_ok size_ok
validate c =
    if is_empty c.service_name
    then false
    else if is_empty c.sessions
    then false
    else if not (sessions_ok c.sessions)
    then false
    else if is_empty c.monitor_name
    then false
    else if is_empty c.event_queue_name
    then false
    else if is_empty c.vendor_name
    then false
    else if not (size_ok c.maximum_data_size)
    then false
    else if not (size_ok c.maximum_response_size)
    then false
    else if not (resources_ok c.resources)
    then false
    else true

-- The text is there.
abbrev pub Given {ℓ} : {A : Type ℓ} → List A → Type 0
Given l = is_empty l ≡ false

pub record IsSession (s : SessionConfig) : Type 0 where
  pub session_name : Given s.session_name
  pub connection_name : Given s.connection_name
  pub publisher_name : Given s.publisher_name
  pub rssl_servers : Given s.rssl_servers
  pub application_id : Given s.application_id
  pub instance_id : Given s.instance_id
  pub user_name : Given s.user_name

pub record IsResource (r : Resource) : Type 0 where
  pub name : Given r.name
  pub path : Given r.path
  pub fields : Given r.fields
  pub items : Given r.items

-- What the validation asks for.
pub record IsConfig (c : Config) : Type 0 where
  pub service_name : Given c.service_name
  pub some_session : Given c.sessions
  pub sessions : All IsSession c.sessions
  pub monitor_name : Given c.monitor_name
  pub event_queue_name : Given c.event_queue_name
  pub vendor_name : Given c.vendor_name
  pub data_size_given : Given c.maximum_data_size
  pub data_size : pos 0 <ℤ atol c.maximum_data_size
  pub response_size_given : Given c.maximum_response_size
  pub response_size : pos 0 <ℤ atol c.maximum_response_size
  pub resources : All IsResource c.resources

session_ok_iff : (s : SessionConfig) → (session_ok s ≡ true) ↔ IsSession s
unfolding session_ok
session_ok_iff s = ground arith

sessions_ok_iff : (l : List SessionConfig) → (sessions_ok l ≡ true) ↔ All IsSession l
unfolding sessions_ok
sessions_ok_iff [] = ground arith
sessions_ok_iff (s ∷ l) = ground (arith, session_ok_iff s, sessions_ok_iff l)

resource_ok_iff : (r : Resource) → (resource_ok r ≡ true) ↔ IsResource r
unfolding resource_ok
resource_ok_iff r = ground arith

pub resources_ok_iff : (l : List Resource) → (resources_ok l ≡ true) ↔ All IsResource l
unfolding resources_ok
resources_ok_iff [] = ground arith
resources_ok_iff (r ∷ l) = ground (arith, resource_ok_iff r, resources_ok_iff l)

size_ok_iff : (t : Bytes) → (size_ok t ≡ true) ↔ (Given t × (pos 0 <ℤ atol t))
unfolding size_ok
size_ok_iff t = ground arith

-- A configuration passes just when it has names, at least one session and all of them complete,
-- positive buffer sizes, and complete resources. The interval and the time of day are not looked at.
pub validate_iff : (c : Config) → (validate c ≡ true) ↔ IsConfig c
unfolding validate
validate_iff c = ground (
  arith,
  sessions_ok_iff c.sessions,
  size_ok_iff c.maximum_data_size,
  size_ok_iff c.maximum_response_size,
  resources_ok_iff c.resources,
)
