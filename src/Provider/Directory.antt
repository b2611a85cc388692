-- ===== src/Provider/Directory.antt =====
-- The service directory that a session publishes after login (src/provider.cc).
use psych.Prelude.{List, [], ◌∷◌}
use psych.Prelude.Bytes.{Bytes, codes}
use psych.Config.{Config}
use psych.Messages.{
  ModelType, market_price, Quality, real_time_tick_by_tick, Element, text, uint, models, texts,
  qualities, ename_name, ename_vendor, ename_capabilities, ename_dictionaries_used, ename_qos,
  ename_svc_state, FilterEntry, service_info, service_state, ServiceMap,
}
use psych.Store.{Provider}

-- `kRdmFieldDictionaryName`, `kEnumTypeDictionaryName`
abbrev pub rdm_field_dictionary_name : Bytes
rdm_field_dictionary_name = codes "RWFFld"

abbrev pub enum_type_dictionary_name : Bytes
enum_type_dictionary_name = codes "RWFEnum"

unfoldable pub get_service_capabilities : List ModelType
get_service_capabilities = market_price ∷ []

unfoldable pub get_service_dictionaries : List Bytes
get_service_dictionaries = rdm_field_dictionary_name ∷ enum_type_dictionary_name ∷ []

unfoldable pub get_directory_qos : List Quality
get_directory_qos = real_time_tick_by_tick ∷ []

unfoldable pub get_service_information : Config → List Element
unfolding get_service_capabilities get_service_dictionaries get_directory_qos
get_service_information c =
    record { name = ename_name; value = text c.service_name }
    ∷ record { name = ename_vendor; value = text c.vendor_name }
    ∷ record { name = ename_capabilities; value = models get_service_capabilities }
    ∷ record { name = ename_dictionaries_used; value = texts get_service_dictionaries }
    ∷ record { name = ename_qos; value = qualities get_directory_qos }
    ∷ []

unfoldable pub get_service_state : List Element
get_service_state = record { name = ename_svc_state; value = uint 1 } ∷ []

unfoldable pub get_service_filter_list : Config → List FilterEntry
unfolding get_service_information get_service_state
get_service_filter_list c =
    record { filter_id = service_info; elements = get_service_information c }
    ∷ record { filter_id = service_state; elements = get_service_state }
    ∷ []

unfoldable pub get_service_directory : Provider → ServiceMap
unfolding get_service_filter_list
get_service_directory p = record {
  rwf_major = p.min_rwf_major;
  rwf_minor = p.min_rwf_minor;
  service_name = p.config.service_name;
  filters = get_service_filter_list p.config;
}
