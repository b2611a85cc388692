-- ===== src/Tests/Messaging.antt =====
-- RFA's log and the texts of its messages: src/rfa_logging.cc and src/rfaostream.hh.
use psych.Prelude.{◌≡◌, ◌↔◌, Bool, true, false, some, [], refl}
use mathlib.Core.List.{reverse}
use psych.Prelude.Int.{pos, negsuc}
use psych.Prelude.Bytes.{codes}
use psych.Config.Print.{print_int, decimal, quoted, member, text_member}
use psych.Rfa.Log.{
  LogEnv, object, null, new_client, succeeded, register, unregister, severity_text,
  print_logger_notify_event, unregister-register,
}
use psych.Rfa.Errors.{Severity, severity_string, incorrect_api_usage, classification_string}
use psych.Rfa.Print.Masks.{
  AttribFlag, name_flag, service_id_flag, ManifestFlag, RespFlag, IndicationFlag, attrib_flags,
  mask_text, put_flags,
}
use psych.Rfa.Print.Names.{EventType, event_type_text}
use psych.Rfa.Print.Messages.{
  QosConstants, print_qos, rate_text, timeliness_text, print_event, event,
}

-- The name of an item and the number of its service.
abbrev named : AttribFlag → Bool
named name_flag = true
named service_id_flag = true
named flag = false

two_flags : mask_text (attrib_flags named) ≡ codes "NameFlag|ServiceIDFlag"
unfolding mask_text put_flags
two_flags = refl

abbrev all_manifest : ManifestFlag → Bool
all_manifest flag = true

abbrev no_resp : RespFlag → Bool
no_resp flag = false

abbrev all_indications : IndicationFlag → Bool
all_indications flag = true

abbrev constants : QosConstants
constants = record {
  tick_by_tick = pos 0;
  just_in_time_filtered_rate = negsuc 0;
  unspecified_rate = negsuc 1;
  real_time = pos 0;
  unspecified_delayed_timeliness = negsuc 0;
  unspecified_timeliness = negsuc 1;
}

-- The name of a rate stands in two pairs of quotation marks.
quoted_twice :
    print_qos constants (record { rate = pos 0; timeliness = pos 15 })
    ≡ codes "\"QualityOfService\": { \"Rate\": \"\"tickByTick\"\", \"Timeliness\": \"15\" }"
unfolding print_qos rate_text timeliness_text print_int decimal quoted member text_member
quoted_twice = refl

connected :
    print_event constants (event EventType.connection_event false)
    ≡ codes "\"Event\": { \"Type\": \"ConnectionEventEnum\", \"isEventStreamClosed\": false }"
unfolding print_event quoted member event_type_text
connected = refl

-- The monitor is made, but the client is not registered.
abbrev refusing : LogEnv
refusing = record { acquires = object; creates = object; registers = null }

unregister-register_example :
    let (taken, c, end) = register refusing in
    (unregister c ≡ some (reverse taken, new_client))
    × (unregister new_client ≡ some ([], new_client))
    × ((end ≡ succeeded) ↔ (
        (refusing.acquires ≡ object) × (refusing.creates ≡ object) × (refusing.registers ≡ object)))
unregister-register_example = unregister-register refusing

informed :
    print_logger_notify_event (record {
      severity = 1;
      component_name = codes "Adapter";
      log_id = pos 7;
      message_text = codes "up";
    })
    ≡ some (
        codes
          "LoggerNotifyEvent: { \"Severity\": \"Information\", \"Component\": \"Adapter\", \"LogId\": \"7\", \"Text\": \"up\" }")
unfolding print_logger_notify_event severity_text quoted text_member print_int decimal
informed = refl

misused : classification_string incorrect_api_usage ≡ codes "IncorrectAPIUsage"
unfolding classification_string
misused = refl

failed : severity_string Severity.error ≡ codes "Error"
unfolding severity_string
failed = refl
