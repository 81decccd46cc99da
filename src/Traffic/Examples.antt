-- ===== src/Traffic/Examples.antt =====
-- The assessment of two vessels that AIS and radar see in one place, in thousandths. The trigonometric
-- functions are constant, and a date's instant is the length of its text.
use malacca_port_resilience.Prelude.{
  lookup, insert, unique, matches, ℕ, ◌+◌, ◌%◌, ◌≡◌, refl, min, max, true, String, some, List, [],
  ◌∷◌, codes, length,
}
use malacca_port_resilience.Samples.{thousandths}
use malacca_port_resilience.Authority.{ends_with_offset}
use malacca_port_resilience.Traffic.Sightings.{IsShown}
use malacca_port_resilience.Traffic.Encounters.{alarm-IsShown}
use malacca_port_resilience.Traffic.Complete.{IsComplete, assess-IsComplete}
use malacca_port_resilience.Traffic.{
  validate_observation, fuse, distance_nm, TrafficMath, TrafficOptions, Observation, FusedTrack,
  Encounter, TrafficAssessment, critical, vts_operator_review, assess_vessel_traffic,
}

abbrev math : TrafficMath ℕ
math = record {
  floats = thousandths;
  min_of = min;
  max_of = max;
  modulo = ◌%◌;
  sqrt = λ x. x;
  sin = λ _. 0;
  cos = λ _. 1000;
  asin = λ x. x;
  atan2 = λ x y. 0;
  hypot = λ x y. x + y;
  pi = 3141;
  infinity = 0;
  fixed = λ x d. x;
  fixed_text = λ x d. "";
  parse_date = λ s. some (length (codes s));
}

abbrev options : TrafficOptions ℕ
options = record {
  maximum_age_seconds = 120000;
  correlation_distance_nm = 500;
  warning_dcpa_nm = 1000;
  critical_dcpa_nm = 500;
  maximum_tcpa_minutes = 60000;
}

abbrev sighting : String → String → String → Observation ℕ
sighting kind source imo = record {
  source_id = source;
  source_type = kind;
  track_id = "track-1";
  mmsi = "";
  imo = imo;
  observed_at = "2026-01-01T00:00:00Z";
  latitude = 2000;
  longitude = 101000;
  speed_over_ground_knots = 10000;
  course_over_ground_degrees = 90000;
  horizontal_accuracy_meters = 10000;
}

-- The last observation has no valid kind of sensor.
abbrev sightings : List (Observation ℕ)
sightings =
    sighting "AIS" "ais-1" "1234567"
    ∷ sighting "RADAR" "radar-1" "1234567"
    ∷ sighting "AIS" "ais-1" "7654321"
    ∷ sighting "RADAR" "radar-1" "7654321"
    ∷ sighting "SONAR" "sonar-1" "7654321"
    ∷ []

abbrev assessment : TrafficAssessment ℕ
assessment = assess_vessel_traffic math options 10 sightings

abbrev collision : Encounter ℕ
collision = record {
  vessels = ("IMO:1234567", "IMO:7654321");
  risk = critical;
  dcpa_nm = 0;
  tcpa_minutes = some 0;
  information_sufficient = true;
  response = vts_operator_review;
}

alarm-IsShown_example :
    (left : FusedTrack ℕ) × (right : FusedTrack ℕ) × IsShown math options 10 left
    × IsShown math options 10 right
    × (collision.vessels ≡ (left.vessel_identity, right.vessel_identity))
unfolding assess_vessel_traffic validate_observation matches ends_with_offset insert fuse lookup
    distance_nm unique
alarm-IsShown_example = alarm-IsShown math options 10 sightings 0 collision refl refl

assess-IsComplete_example : IsComplete math options 10 sightings assessment
assess-IsComplete_example = assess-IsComplete math options 10 sightings

assessed_counts :
    (assessment.accepted_observation_count ≡ 4)
    × (assessment.rejected_observations ≡ (4, "source_type_invalid" ∷ []) ∷ [])
    × (assessment.critical_encounter_count ≡ 1)
unfolding assess_vessel_traffic validate_observation matches ends_with_offset insert fuse lookup
    distance_nm unique
assessed_counts = (refl, refl, refl)
