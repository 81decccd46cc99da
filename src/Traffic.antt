-- ===== src/Traffic.antt =====
-- server/vesselTrafficSafety.ts: `assessVesselTraffic`.
mod Tracks
pub mod Sightings
pub mod Encounters
pub mod Pairs
pub mod Complete
mod Examples
use text.Mathlib.Text.{◌==◌ as str_eq}
use malacca_port_resilience.Prelude.{
  ℕ, suc, Bool, true, false, not, ◌&&◌, ◌||◌, String, Option, none, some, List, [], ◌∷◌, ◌++◌, map,
  length, Map, lookup, insert, values, is_empty, if◌then◌else◌,
}
unfoldable pub use Tracks.*

-- The options, with their defaults filled in.
pub record TrafficOptions (F : Type 0) : Type 0 where
  pub maximum_age_seconds : F
  pub correlation_distance_nm : F
  pub warning_dcpa_nm : F
  pub critical_dcpa_nm : F
  pub maximum_tcpa_minutes : F

pub data Risk : Type 0 where
  insufficient_data : Risk
  low : Risk
  warning : Risk
  critical : Risk

pub data Response : Type 0 where
  vts_operator_review : Response
  monitor : Response

pub record Encounter (F : Type 0) : Type 0 where
  pub vessels : String × String
  pub risk : Risk
  pub dcpa_nm : F
  pub tcpa_minutes : Option F
  pub information_sufficient : Bool
  pub response : Response

pub record TrafficAssessment (F : Type 0) : Type 0 where
  pub input_observation_count : ℕ
  pub accepted_observation_count : ℕ
  pub rejected_observations : List (ℕ × List String)
  pub tracks : List (FusedTrack F)
  pub encounters : List (Encounter F)
  pub critical_encounter_count : ℕ
  pub warning_encounter_count : ℕ
  pub insufficient_information_count : ℕ

abbrev pub is_correlated : Quality → Bool
is_correlated multi_source_correlated = true
is_correlated _ = false

abbrev pub is_critical : Risk → Bool
is_critical critical = true
is_critical _ = false

abbrev pub is_warning : Risk → Bool
is_warning warning = true
is_warning _ = false

abbrev pub is_insufficient : Risk → Bool
is_insufficient insufficient_data = true
is_insufficient _ = false

abbrev or_empty {ℓ} : {A : Type ℓ} → Option (List A) → List A
or_empty none = []
or_empty (some xs) = xs

module _ {F : Type 0} where
  -- `grouped`: the observations by identity, in the order in which the identities come.
  unfoldable pub group :
      List (Observation F) → Map (List (Observation F)) → Map (List (Observation F))
  group [] m = m
  group (o ∷ rest) m =
      group rest
        (insert (vessel_identity_of o) (or_empty (lookup (vessel_identity_of o) m) ++ o ∷ []) m)

  -- The pairs that the two loops go through.
  abbrev pub pairs_with : FusedTrack F → List (FusedTrack F) → List (FusedTrack F × FusedTrack F)
  pairs_with left [] = []
  pairs_with left (right ∷ rest) = (left, right) ∷ pairs_with left rest

  abbrev pub pairs : List (FusedTrack F) → List (FusedTrack F × FusedTrack F)
  pairs [] = []
  pairs (left ∷ rest) = pairs_with left rest ++ pairs rest

  abbrev count_by : (Risk → Bool) → List (Encounter F) → ℕ
  count_by t [] = 0
  count_by t (e ∷ rest) = if t e.risk then suc (count_by t rest) else count_by t rest

module _ {F : Type 0} (g : TrafficMath F) (o : TrafficOptions F) where
  -- `relativePositionNm` and `velocity`, east and north.
  abbrev relative_position : FusedTrack F → FusedTrack F → F × F
  relative_position left right =
      let latitude = radians g (over g (plus g left.latitude right.latitude) (lit g 2 0)) in
      (
        by g (by g (minus g right.longitude left.longitude) (lit g 60 0)) (g.cos latitude),
        by g (minus g right.latitude left.latitude) (lit g 60 0),
      )

  abbrev velocity : FusedTrack F → F × F
  velocity t = (
    by g t.speed_over_ground_knots (g.sin (radians g t.course_over_ground_degrees)),
    by g t.speed_over_ground_knots (g.cos (radians g t.course_over_ground_degrees)),
  )

  -- The time to the closest point of approach, in hours.
  unfoldable pub tcpa_hours : FusedTrack F → FusedTrack F → F
  tcpa_hours left right =
      let (x, y) = relative_position left right in
      let east = minus g (velocity right).0 (velocity left).0 in
      let north = minus g (velocity right).1 (velocity left).1 in
      let squared = plus g (square g east) (square g north) in
      if g.floats.lt squared (lit g 1 9)
      then g.infinity
      else over g (minus g (lit g 0 0) (plus g (by g x east) (by g y north))) squared

  -- The distance at that time, or now if it is past.
  unfoldable pub dcpa_nm : FusedTrack F → FusedTrack F → F
  unfolding tcpa_hours
  dcpa_nm left right =
      let hours = tcpa_hours left right in
      let (x, y) = relative_position left right in
      let east = minus g (velocity right).0 (velocity left).0 in
      let north = minus g (velocity right).1 (velocity left).1 in
      if g.floats.lt (lit g 0 0) hours && g.floats.is_finite hours
      then g.hypot (plus g x (by g east hours)) (plus g y (by g north hours))
      else g.hypot x y

  unfoldable pub tcpa_minutes : FusedTrack F → FusedTrack F → Option F
  unfolding tcpa_hours
  tcpa_minutes left right =
      let hours = tcpa_hours left right in
      if g.floats.is_finite hours then some (by g hours (lit g 60 0)) else none

  -- `minutes !== null && minutes >= 0 && minutes <= limit && dcpa <= distance`
  abbrev pub closes_in : Option F → F → F → F → Bool
  closes_in none limit dcpa distance = false
  closes_in (some minutes) limit dcpa distance =
      g.floats.le (lit g 0 0) minutes && (g.floats.le minutes limit && g.floats.le dcpa distance)

  unfoldable pub risk_of : FusedTrack F → FusedTrack F → Risk
  unfolding tcpa_minutes dcpa_nm
  risk_of left right =
      let minutes = tcpa_minutes left right in
      let dcpa = dcpa_nm left right in
      if not (is_correlated left.quality) || not (is_correlated right.quality)
      then insufficient_data
      else if closes_in minutes (lit g 30 0) dcpa o.critical_dcpa_nm
      then critical
      else if closes_in minutes o.maximum_tcpa_minutes dcpa o.warning_dcpa_nm
      then warning
      else low

  abbrev fixed_minutes : Option F → Option F
  fixed_minutes none = none
  fixed_minutes (some m) = some (g.fixed m 2)

  unfoldable pub encounter : FusedTrack F × FusedTrack F → Encounter F
  unfolding risk_of
  encounter (left, right) = record {
    vessels = (left.vessel_identity, right.vessel_identity);
    risk = risk_of left right;
    dcpa_nm = g.fixed (dcpa_nm left right) 3;
    tcpa_minutes = fixed_minutes (tcpa_minutes left right);
    information_sufficient = is_correlated left.quality && is_correlated right.quality;
    response =
        if is_warning (risk_of left right) || is_critical (risk_of left right)
        then vts_operator_review
        else monitor;
  }

  unfoldable pub accepted_of : ℕ → List (Observation F) → List (Observation F)
  accepted_of now [] = []
  accepted_of now (v ∷ rest) =
      let others = accepted_of now rest in
      if is_empty (validate_observation g now o.maximum_age_seconds v) then v ∷ others else others

  unfoldable pub rejected_of : ℕ → ℕ → List (Observation F) → List (ℕ × List String)
  rejected_of now i [] = []
  rejected_of now i (v ∷ rest) =
      let others = rejected_of now (suc i) rest in
      if is_empty (validate_observation g now o.maximum_age_seconds v)
      then others
      else (i, validate_observation g now o.maximum_age_seconds v) ∷ others

  unfoldable pub tracks_of : List (Observation F) → List (FusedTrack F)
  unfolding group
  tracks_of accepted = map (fuse g o.correlation_distance_nm) (values (group accepted []))

  unfoldable pub assess_vessel_traffic : ℕ → List (Observation F) → TrafficAssessment F
  unfolding accepted_of rejected_of tracks_of encounter
  assess_vessel_traffic now vs =
      let accepted = accepted_of now vs in
      let tracks = tracks_of accepted in
      let encounters = map encounter (pairs tracks) in
      record {
        input_observation_count = length vs;
        accepted_observation_count = length accepted;
        rejected_observations = rejected_of now 0 vs;
        tracks = tracks;
        encounters = encounters;
        critical_encounter_count = count_by is_critical encounters;
        warning_encounter_count = count_by is_warning encounters;
        insufficient_information_count = count_by is_insufficient encounters;
      }
