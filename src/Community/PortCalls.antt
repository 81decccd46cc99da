-- ===== src/Community/PortCalls.antt =====
-- server/portCallContract.ts: `validatePortCallEvent`.
use Prim.Native.String.{◌++◌ as ◌++ˢ◌}
use text.Mathlib.Text.{◌==◌ as str_eq}
use malacca_port_resilience.Prelude.{
  ℕ, Bool, true, false, not, ◌&&◌, ◌||◌, String, Option, none, some, is_some, List, [], ◌∷◌, ◌++◌,
  codes, matches, is_digit, contains, Result, ok, err, ◌==◌, raised, Floats, if◌then◌else◌,
  is_empty, all,
}
use malacca_port_resilience.Authority.{ends_with_offset}
use malacca_port_resilience.Json.{
  Json, number, Fields, end, get, keys, as_record, as_string, TextPlatform,
}
use malacca_port_resilience.Community.Messages.{joined_by, is_unlocode}

abbrev pub service_types : List String
service_types =
    "BERTH" ∷ "PILOTAGE" ∷ "TOWAGE" ∷ "MOORING" ∷ "BUNKERING" ∷ "CARGO_OPERATIONS" ∷ "ANCHORAGE"
    ∷ []

abbrev pub event_types : List String
event_types = "ARRIVAL" ∷ "DEPARTURE" ∷ "START" ∷ "END" ∷ []

abbrev pub event_classifiers : List String
event_classifiers = "EST" ∷ "REQ" ∷ "PLN" ∷ "ACT" ∷ []

abbrev pub facility_types : List String
facility_types = "BERTH" ∷ "ANCHORAGE" ∷ "PILOT_BOARDING_PLACE" ∷ "TERMINAL" ∷ []

abbrev pub quality_statuses : List String
quality_statuses = "VERIFIED" ∷ "ESTIMATED" ∷ "UNVERIFIED" ∷ []

-- A text that is empty stands for a field of `vessel` or `facility` that the event leaves out; of
-- the confidence none stands for NaN.
pub record PortCallEvent (N : Type 0) : Type 0 where
  pub port_call_id : String
  pub vessel_visit_reference : String
  pub un_location_code : String
  pub imo : String
  pub mmsi : String
  pub vessel_name : String
  pub service_type_code : String
  pub event_type_code : String
  pub event_classifier_code : String
  pub event_date_time : String
  pub facility_type_code : String
  pub facility_code : String
  pub facility_name : String
  pub source_system : String
  pub source_record_id : String
  pub observed_at : String
  pub quality_status : String
  pub confidence : Option N

-- `^\d{4}-\d{2}-\d{2}T`
abbrev pub starts_with_date : List ℕ → Bool
starts_with_date (a ∷ b ∷ c ∷ d ∷ e ∷ f ∷ g ∷ h ∷ i ∷ j ∷ k ∷ rest) =
    all is_digit (a ∷ b ∷ c ∷ d ∷ f ∷ g ∷ i ∷ j ∷ []) && (e == b'-' && (h == b'-' && k == b'T'))
starts_with_date _ = false

-- `rejectUnknownKeys`
abbrev unknown_keys : List String → String → List String → List String
unknown_keys allowed path [] = []
unknown_keys allowed path (k ∷ ks) =
    if contains k allowed
    then unknown_keys allowed path ks
    else (path ++ˢ k ++ˢ " 是未定义字段") ∷ unknown_keys allowed path ks

abbrev required_check : String → String → Bool × String
required_check path s = (str_eq s "", path ++ˢ " 必须是非空字符串")

-- The errors of several tables, one after another.
abbrev pub raised_by : List (List (Bool × String)) → List String
raised_by [] = []
raised_by (table ∷ rest) = raised table ++ raised_by rest

abbrev enum_check : List String → String → String → Bool × String
enum_check values path s = (not (contains s values), path ++ˢ " 必须是 " ++ˢ joined_by "/" values)

module _ {N : Type 0} (p : TextPlatform N) (f : Floats N) where
  -- The errors of `isoDateTime`.
  abbrev pub date_checks : String → String → List (Bool × String)
  date_checks path s =
      required_check path s
      ∷ (
        not (str_eq s "") && not (starts_with_date (codes s) && is_some (p.parse_date s)),
        path ++ˢ " 必须是带时区的 ISO 8601 日期时间",
      )
      ∷ (not (str_eq s "") && not (ends_with_offset (codes s)), path ++ˢ " 必须包含时区")
      ∷ []

  abbrev pub text_field : String → Fields N → String
  text_field k fs = elim (as_string (get k fs)) [ none ↦ "" | some s ↦ p.trim s ]

  abbrev enum_field : String → Fields N → String
  enum_field k fs = elim (as_string (get k fs)) [ none ↦ "" | some s ↦ p.upper (p.trim s) ]

  abbrev record_field : String → Fields N → Fields N
  record_field k fs = elim (as_record (get k fs)) [ none ↦ end | some r ↦ r ]

  abbrev number_field : String → Fields N → Option N
  number_field k fs = elim (get k fs) [ some (number n) ↦ some n | _ ↦ none ]

  abbrev pub out_of_unit : Option N → Bool
  out_of_unit none = true
  out_of_unit (some c) = not (f.is_finite c) || (f.lt c (f.decimal 0 0) || f.lt (f.decimal 1 0) c)

  -- The event that the fields say, whether it is valid or not.
  unfoldable pub normalized_event : Fields N → PortCallEvent N
  normalized_event input =
      let vessel = record_field "vessel" input in
      let facility = record_field "facility" input in
      let source = record_field "source" input in
      let quality = record_field "quality" input in
      record {
        port_call_id = text_field "portCallID" input;
        vessel_visit_reference = text_field "vesselVisitReference" input;
        un_location_code = p.upper (text_field "UNLocationCode" input);
        imo = text_field "IMO" vessel;
        mmsi = text_field "MMSI" vessel;
        vessel_name = text_field "name" vessel;
        service_type_code = enum_field "portCallServiceTypeCode" input;
        event_type_code = enum_field "eventTypeCode" input;
        event_classifier_code = enum_field "eventClassifierCode" input;
        event_date_time = text_field "eventDateTime" input;
        facility_type_code = enum_field "facilityTypeCode" facility;
        facility_code = text_field "facilityCode" facility;
        facility_name = text_field "facilityName" facility;
        source_system = text_field "system" source;
        source_record_id = text_field "recordID" source;
        observed_at = text_field "observedAt" source;
        quality_status = enum_field "status" quality;
        confidence = number_field "confidence" quality;
      }

  abbrev pub vessel_checks : PortCallEvent N → List (Bool × String)
  vessel_checks e =
      (
        str_eq e.imo "" && (str_eq e.mmsi "" && str_eq e.vessel_name ""),
        "vessel 至少提供 IMO、MMSI 或 name 之一",
      )
      ∷ (not (str_eq e.imo "") && not (matches is_digit 7 7 e.imo), "vessel.IMO 必须是 7 位数字")
      ∷ (not (str_eq e.mmsi "") && not (matches is_digit 9 9 e.mmsi), "vessel.MMSI 必须是 9 位数字")
      ∷ []

  -- `location` is the code before it is put into capitals.
  abbrev pub code_checks : String → PortCallEvent N → List (Bool × String)
  code_checks location e =
      required_check "UNLocationCode" location
      ∷ (
        not (str_eq e.un_location_code "") && not (is_unlocode (codes e.un_location_code)),
        "UNLocationCode 必须符合 5 位 UN/LOCODE 形式，例如 SGSIN",
      )
      ∷ (out_of_unit e.confidence, "quality.confidence 必须是 0 到 1 的数值")
      ∷ enum_check quality_statuses "quality.status" e.quality_status
      ∷ required_check "portCallID" e.port_call_id
      ∷ required_check "vesselVisitReference" e.vessel_visit_reference
      ∷ enum_check service_types "portCallServiceTypeCode" e.service_type_code
      ∷ enum_check event_types "eventTypeCode" e.event_type_code
      ∷ enum_check event_classifiers "eventClassifierCode" e.event_classifier_code
      ∷ []

  abbrev pub facility_checks : PortCallEvent N → List (Bool × String)
  facility_checks e =
      enum_check facility_types "facility.facilityTypeCode" e.facility_type_code
      ∷ required_check "facility.facilityCode" e.facility_code
      ∷ required_check "source.system" e.source_system
      ∷ required_check "source.recordID" e.source_record_id
      ∷ []

  abbrev pub field_errors : Fields N → List String
  field_errors input =
      unknown_keys
        ("protocolVersion" ∷ "portCallID" ∷ "vesselVisitReference" ∷ "UNLocationCode" ∷ "vessel"
          ∷ "portCallServiceTypeCode" ∷ "eventTypeCode" ∷ "eventClassifierCode" ∷ "eventDateTime"
          ∷ "facility" ∷ "source" ∷ "quality" ∷ [])
        "" (keys input)
      ++ unknown_keys ("IMO" ∷ "MMSI" ∷ "name" ∷ []) "vessel." (keys (record_field "vessel" input))
      ++ unknown_keys ("facilityTypeCode" ∷ "facilityCode" ∷ "facilityName" ∷ []) "facility."
          (keys (record_field "facility" input))
      ++ unknown_keys ("system" ∷ "recordID" ∷ "observedAt" ∷ []) "source."
          (keys (record_field "source" input))
      ++ unknown_keys ("status" ∷ "confidence" ∷ []) "quality."
          (keys (record_field "quality" input))

  abbrev is_event_version : Option (Json N) → Bool
  is_event_version v = elim (as_string v) [ none ↦ false | some s ↦ str_eq s "port-call-event.v1" ]

  abbrev pub version_checks : Option (Json N) → List (Bool × String)
  version_checks v = (not (is_event_version v), "protocolVersion 必须是 port-call-event.v1") ∷ []

  -- The checks after those of unknown fields.
  abbrev pub value_checks : Fields N → PortCallEvent N → List (List (Bool × String))
  value_checks input e =
      version_checks (get "protocolVersion" input)
      ∷ vessel_checks e
      ∷ code_checks (text_field "UNLocationCode" input) e
      ∷ date_checks "eventDateTime" e.event_date_time
      ∷ facility_checks e
      ∷ date_checks "source.observedAt" e.observed_at
      ∷ []

  -- The errors after those of unknown fields.
  unfoldable pub value_errors : Fields N → PortCallEvent N → List String
  value_errors input e = raised_by (value_checks input e)

  unfoldable pub event_errors : Fields N → List String
  unfolding normalized_event value_errors
  event_errors input = field_errors input ++ value_errors input (normalized_event input)

  unfoldable pub validate_port_call_event : Json N → Result (List String) (PortCallEvent N)
  unfolding event_errors normalized_event value_errors
  validate_port_call_event input = elim (as_record (some input)) [
    | none ↦ err ("请求体必须是 JSON 对象" ∷ [])
    | some fs ↦
        if is_empty (event_errors fs) then ok (normalized_event fs) else err (event_errors fs)
  ]
