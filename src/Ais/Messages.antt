-- ===== src/Ais/Messages.antt =====
-- server/realtimeAisGateway.ts: `parseAisStreamMessage`.
use Prim.Native.Char.{code}
use Prim.Native.String.{◌++◌ as ◌++ˢ◌}
use text.Mathlib.Text.{◌==◌ as str_eq}
use malacca_port_resilience.Prelude.{
  ℕ, Bool, false, not, ◌&&◌, ◌||◌, String, Option, none, some, [], ◌∷◌, contains, Floats, ◌==◌,
  if◌then◌else◌,
}
use malacca_port_resilience.Json.{
  Json, null, boolean, string, Fields, end, get, as_record, as_string, TextPlatform,
}

-- `to_number` is `Number`, where none is undefined; `is_truthy` tests a value in a condition.
pub record AisPlatform (N : Type 0) : Type 0 where
  pub texts : TextPlatform N
  pub floats : Floats N
  pub min_of : N → N → N
  pub max_of : N → N → N
  pub to_number : Option (Json N) → N
  pub is_truthy : Json N → Bool

pub data TimestampQuality : Type 0 where
  provider : TimestampQuality
  receive_time_fallback : TimestampQuality

pub record LiveVessel (N : Type 0) : Type 0 where
  pub id : String
  pub mmsi : String
  pub name : String
  pub latitude : N
  pub longitude : N
  pub speed_knots : N
  pub course_deg : N
  pub heading_deg : N
  pub navigation_status : Option N
  pub position_accuracy : Option Bool
  pub raim : Option Bool
  pub observed_at : String
  pub received_at : String
  pub timestamp_quality : TimestampQuality
  pub message_type : String

abbrev text_or_none : Option String → String
text_or_none none = ""
text_or_none (some s) = s

-- `.replace(/@+$/g, '')`
abbrev without_at_end : String → String
without_at_end String.[] = ""
without_at_end (String.◌∷◌ c s) =
    let rest = without_at_end s in
    if str_eq rest "" && code c == b'@' then "" else String.◌∷◌ c rest

module _ {N : Type 0} where
  -- `a ?? b`
  abbrev or_else : Option (Json N) → Option (Json N) → Option (Json N)
  or_else none b = b
  or_else (some null) b = b
  or_else (some v) b = some v

  abbrev fields_or_none : Option (Json N) → Fields N
  fields_or_none v = elim (as_record v) [ none ↦ end | some fs ↦ fs ]

  abbrev as_flag : Option (Json N) → Option Bool
  as_flag (some (boolean b)) = some b
  as_flag _ = none

  module _ (p : AisPlatform N) where
    abbrev finite : Option (Json N) → Option N
    finite v = if p.floats.is_finite (p.to_number v) then some (p.to_number v) else none

    abbrev lit : ℕ → ℕ → N
    lit m d = p.floats.decimal m d

    abbrev bounded : N → Option N → N
    bounded maximum none = lit 0 0
    bounded maximum (some v) = p.min_of maximum (p.max_of (lit 0 0) v)

    -- A value that is not nullish, as a text.
    abbrev text_of_value : Option (Json N) → String
    text_of_value none = ""
    text_of_value (some null) = ""
    text_of_value (some (string s)) = s
    text_of_value (some v) = p.texts.string_of v

    unfoldable pub normalized_timestamp : Option (Json N) → ℕ → String × TimestampQuality
    normalized_timestamp v fallback = elim (as_string v) [
      | none ↦ (p.texts.iso_string fallback, receive_time_fallback)
      | some s ↦
          if str_eq (p.texts.trim s) ""
          then (p.texts.iso_string fallback, receive_time_fallback)
          else elim (p.texts.parse_date s) [
            | none ↦ (p.texts.iso_string fallback, receive_time_fallback)
            | some t ↦ (p.texts.iso_string t, provider)
          ]
    ]

    unfoldable pub is_inside_malacca_box : N → N → Bool
    is_inside_malacca_box latitude longitude =
        p.floats.le (lit 35 2) latitude
        && (p.floats.le latitude (lit 625 2)
            && (p.floats.le (lit 99 0) longitude && p.floats.le longitude (lit 105 0)))

    abbrev heading_or : N → Option N → N
    heading_or course none = course
    heading_or course (some h) =
        if p.floats.le (lit 0 0) h && p.floats.lt h (lit 360 0) then h else course

    abbrev vessel_at : String → Fields N → Fields N → String → ℕ → N → N → LiveVessel N
    vessel_at type body metadata mmsi received latitude longitude =
        let course = bounded (lit 3599 1) (finite (get "Cog" body)) in
        let name = p.texts.trim (
          without_at_end
            (text_of_value (or_else (get "ShipName" metadata) (get "shipName" metadata)))) in
        let (at, quality) =
          normalized_timestamp (or_else (get "time_utc" metadata) (get "TimeUtc" metadata))
            received in
        record {
          id = "ais-" ++ˢ mmsi;
          mmsi = mmsi;
          name = if str_eq name "" then "MMSI " ++ˢ mmsi else name;
          latitude = latitude;
          longitude = longitude;
          speed_knots = bounded (lit 80 0) (finite (get "Sog" body));
          course_deg = course;
          heading_deg = heading_or course (finite (get "TrueHeading" body));
          navigation_status = finite (get "NavigationalStatus" body);
          position_accuracy = as_flag (get "PositionAccuracy" body);
          raim = as_flag (get "Raim" body);
          observed_at = at;
          received_at = p.texts.iso_string received;
          timestamp_quality = quality;
          message_type = type;
        }

    abbrev pub has_error : Fields N → Bool
    has_error fs = elim (get "error" fs) [ none ↦ false | some v ↦ p.is_truthy v ]

    -- `parseAisStreamMessage` of an envelope, after its JSON is parsed.
    unfoldable pub parse_ais_stream_message : Fields N → ℕ → Option (LiveVessel N)
    unfolding normalized_timestamp is_inside_malacca_box
    parse_ais_stream_message fs received =
        let type = text_or_none (as_string (get "MessageType" fs)) in
        let metadata = fields_or_none (or_else (get "MetaData" fs) (get "Metadata" fs)) in
        let body = fields_or_none (get type (fields_or_none (get "Message" fs))) in
        let mmsi =
          p.texts.trim (text_of_value (or_else (get "UserID" body) (get "MMSI" metadata))) in
        if has_error fs
          || not (
              contains type (
                "PositionReport" ∷ "StandardClassBPositionReport" ∷ "ExtendedClassBPositionReport"
                ∷ []))
        then none
        else elim (finite (
            or_else (get "Latitude" body)
              (or_else (get "latitude" metadata) (get "Latitude" metadata)))) [
                | none ↦ none
                | some latitude ↦
                    elim (finite (
                      or_else (get "Longitude" body)
                        (or_else (get "longitude" metadata) (get "Longitude" metadata)))) [
                          | none ↦ none
                          | some longitude ↦
                              if not (is_inside_malacca_box latitude longitude) || str_eq mmsi ""
                              then none
                              else some
                                  (vessel_at type body metadata mmsi received latitude longitude)
                        ]
              ]
