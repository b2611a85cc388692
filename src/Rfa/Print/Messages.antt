-- ===== src/Rfa/Print/Messages.antt =====
-- The texts of messages and events: the `operator<<` of src/rfaostream.hh.
use psych.Prelude.{ℕ, zero, suc, Bool, true, false, ◌&&◌, ◌++◌, if◌then◌else◌}
use psych.Prelude.Int.{ℤ, pos, negsuc, leb_ℤ}
use psych.Prelude.Bytes.{Bytes, codes}
use psych.Config.Print.{quoted, member, text_member, print_int, print_bool, decimal}
use psych.Rfa.Print.Masks.{
  AttribFlag, ManifestFlag, RespFlag, IndicationFlag, attrib_flags, manifest_flags, resp_flags,
  indication_flags, mask_text,
}
use psych.Rfa.Print.Names.{
  NameType, name_type_text, DataState, data_state_text, StatusCode, status_code_text, StreamState,
  stream_state_text, MsgModelType, model_type_text, RespType, resp_type_text, MsgType,
  msg_type_text, EventType, event_type_text,
}

-- What the getters of each class answer.
pub record AttribInfo : Type 0 where
  pub hint_mask : AttribFlag → Bool
  pub id : ℤ
  pub name : Bytes
  pub name_type : NameType
  pub service_id : ℤ
  pub service_name : Bytes

pub record Manifest : Type 0 where
  pub hint_mask : ManifestFlag → Bool
  pub filtered_count : ℕ
  pub filtered_time : ℕ
  pub seq_num : ℕ

pub data PrincipalIdentity : Type 0 where
  publisher : (user_address user_id : Bytes) → PrincipalIdentity
  standard : (app_name name password position : Bytes) → PrincipalIdentity
  tokenized unknown : PrincipalIdentity

pub record QualityOfService : Type 0 where
  pub rate : ℤ
  pub timeliness : ℤ

-- the constants of `QualityOfService`, which are values of the RFA library
pub record QosConstants : Type 0 where
  pub tick_by_tick : ℤ
  pub just_in_time_filtered_rate : ℤ
  pub unspecified_rate : ℤ
  pub real_time : ℤ
  pub unspecified_delayed_timeliness : ℤ
  pub unspecified_timeliness : ℤ

pub record RespStatus : Type 0 where
  pub data_state : DataState
  pub status_code : StatusCode
  pub stream_state : StreamState

pub record RespMsg : Type 0 where
  pub hint_mask : RespFlag → Bool
  pub indication_mask : IndicationFlag → Bool
  pub model_type : MsgModelType
  pub attrib_info : AttribInfo
  pub manifest : Manifest
  pub identity : PrincipalIdentity
  pub qos : QualityOfService
  pub status : RespStatus
  pub resp_type : RespType
  pub resp_type_num : ℤ
  pub is_blank : Bool

pub data Msg : Type 0 where
  response : RespMsg → Msg
  message : MsgType → (is_blank : Bool) → Msg

pub data Event : Type 0 where
  item_event : Msg → (is_closed : Bool) → Event
  event : EventType → (is_closed : Bool) → Event

-- `"name": { `, before the members
opened : Bytes → Bytes
unfolding quoted
opened name = quoted name ++ codes ": { "

-- `"name": "text"`, the first member
first_member : Bytes → Bytes → Bytes
unfolding quoted
first_member name text = quoted name ++ codes ": " ++ quoted text

unfoldable pub print_attrib_info : AttribInfo → Bytes
unfolding opened first_member member text_member mask_text print_int name_type_text
print_attrib_info a =
    opened (codes "AttribInfo")
    ++ (first_member (codes "HintMask") (mask_text (attrib_flags a.hint_mask))
        ++ (member (codes "ID") (print_int a.id)
            ++ (text_member (codes "Name") a.name
                ++ (text_member (codes "NameType") (name_type_text a.name_type)
                    ++ (member (codes "ServiceID") (print_int a.service_id)
                        ++ (text_member (codes "ServiceName") a.service_name ++ codes " }"))))))

unfoldable pub print_manifest : Manifest → Bytes
unfolding opened quoted member text_member mask_text decimal
print_manifest m =
    opened (codes "Manifest")
    ++ (quoted (codes "FilteredCount")
        ++ (codes ": "
            ++ (decimal m.filtered_count
                ++ (member (codes "FilteredTime") (decimal m.filtered_time)
                    ++ (text_member (codes "HintMask") (mask_text (manifest_flags m.hint_mask))
                        ++ (member (codes "SeqNum") (decimal m.seq_num) ++ codes " }"))))))

unfoldable pub print_identity : PrincipalIdentity → Bytes
unfolding opened first_member member text_member
print_identity (publisher address id) =
    opened (codes "PrincipalIdentity")
    ++ (first_member (codes "Type") (codes "PublisherPrincipalIdentity")
        ++ (text_member (codes "UserAddress") address
            ++ (text_member (codes "UserID") id ++ codes " }")))
print_identity (standard app_name name password position) =
    opened (codes "PrincipalIdentity")
    ++ (first_member (codes "Type") (codes "StandardPrincipalIdentity")
        ++ (text_member (codes "AppName") app_name
            ++ (text_member (codes "Name") name
                ++ (text_member (codes "Password") password
                    ++ (text_member (codes "Position") position ++ codes " }")))))
print_identity tokenized =
    opened (codes "PrincipalIdentity")
    ++ (first_member (codes "Type") (codes "TokenizedPrincipalIdentity") ++ codes " }")
print_identity unknown =
    opened (codes "PrincipalIdentity")
    ++ (first_member (codes "Type") (codes "(Unknown)") ++ codes " }")

abbrev pub is_positive : ℤ → Bool
is_positive (pos zero) = false
is_positive (pos (suc n)) = true
is_positive (negsuc n) = false

abbrev pub same_ℤ : ℤ → ℤ → Bool
same_ℤ a b = leb_ℤ a b && leb_ℤ b a

unfoldable pub rate_text : QosConstants → ℤ → Bytes
unfolding quoted print_int
rate_text k rate =
    if is_positive rate
    then print_int rate
    else quoted (
        if same_ℤ rate k.tick_by_tick
        then codes "tickByTick"
        else if same_ℤ rate k.just_in_time_filtered_rate
        then codes "justInTimeFilteredRate"
        else if same_ℤ rate k.unspecified_rate
        then codes "unspecifiedRate"
        else codes "(Unknown)")

unfoldable pub timeliness_text : QosConstants → ℤ → Bytes
unfolding quoted print_int
timeliness_text k timeliness =
    if is_positive timeliness
    then print_int timeliness
    else quoted (
        if same_ℤ timeliness k.real_time
        then codes "realTime"
        else if same_ℤ timeliness k.unspecified_delayed_timeliness
        then codes "unspecifiedDelayedTimeliness"
        else if same_ℤ timeliness k.unspecified_timeliness
        then codes "unspecifiedTimeliness"
        else codes "(Unknown)")

-- The texts of the rate and of the timeliness stand in quotation marks once more.
unfoldable pub print_qos : QosConstants → QualityOfService → Bytes
unfolding opened first_member text_member rate_text timeliness_text
print_qos k q =
    opened (codes "QualityOfService")
    ++ (first_member (codes "Rate") (rate_text k q.rate)
        ++ (text_member (codes "Timeliness") (timeliness_text k q.timeliness) ++ codes " }"))

unfoldable pub print_status : RespStatus → Bytes
unfolding opened first_member text_member data_state_text status_code_text stream_state_text
print_status s =
    opened (codes "RespStatus")
    ++ (first_member (codes "DataState") (data_state_text s.data_state)
        ++ (text_member (codes "StatusCode") (status_code_text s.status_code)
            ++ (text_member (codes "StreamState") (stream_state_text s.stream_state)
                ++ codes " }")))

comma : Bytes → Bytes
comma text = codes ", " ++ text

unfoldable pub print_resp_msg : QosConstants → RespMsg → Bytes
unfolding opened first_member member text_member comma mask_text model_type_text resp_type_text
    print_attrib_info print_manifest print_identity print_qos print_status print_int print_bool
print_resp_msg k m =
    opened (codes "Msg")
    ++ (first_member (codes "HintMask") (mask_text (resp_flags m.hint_mask))
        ++ (text_member (codes "IndicationMask") (mask_text (indication_flags m.indication_mask))
            ++ (text_member (codes "MsgModelType") (model_type_text m.model_type)
                ++ (text_member (codes "MsgType") (codes "RespMsg")
                    ++ (comma (print_attrib_info m.attrib_info)
                        ++ (comma (print_manifest m.manifest)
                            ++ (comma (print_identity m.identity)
                                ++ (comma (print_qos k m.qos)
                                    ++ (comma (print_status m.status)
                                        ++ (text_member (codes "RespType")
                                              (resp_type_text m.resp_type)
                                            ++ (member (codes "RespTypeNum")
                                                  (print_int m.resp_type_num)
                                                ++ (member (codes "isBlank") (print_bool m.is_blank)
                                                    ++ codes " }"))))))))))))

unfoldable pub print_msg : QosConstants → Msg → Bytes
unfolding opened first_member member text_member msg_type_text print_resp_msg print_bool
print_msg k (response m) = print_resp_msg k m
print_msg k (message type is_blank) =
    opened (codes "Msg")
    ++ (first_member (codes "HintMask") (codes "(TODO)")
        ++ (text_member (codes "IndicationMask") (codes "(TODO)")
            ++ (text_member (codes "MsgModelType") (codes "(TODO)")
                ++ (text_member (codes "MsgType") (msg_type_text type)
                    ++ (member (codes "isBlank") (print_bool is_blank) ++ codes " }")))))

unfoldable pub print_event : QosConstants → Event → Bytes
unfolding opened first_member member comma event_type_text print_msg print_bool
print_event k (item_event msg is_closed) =
    opened (codes "Event")
    ++ (first_member (codes "Type") (codes "OMMItemEvent")
        ++ (comma (print_msg k msg)
            ++ (member (codes "isEventStreamClosed") (print_bool is_closed) ++ codes " }")))
print_event k (event type is_closed) =
    opened (codes "Event")
    ++ (first_member (codes "Type") (event_type_text type)
        ++ (member (codes "isEventStreamClosed") (print_bool is_closed) ++ codes " }"))
