-- ===== src/Traffic/Tracks.antt =====
-- server/vesselTrafficSafety.ts: observations of vessels, and how they are fused into tracks.
use Prim.Native.String.{◌++◌ as ◌++ˢ◌}
use text.Mathlib.Text.{◌==◌ as str_eq}
use malacca_port_resilience.Prelude.{
  ℕ, Bool, false, not, ◌&&◌, ◌||◌, String, Option, none, some, is_some, List, [], ◌∷◌, ◌++◌, map,
  length, codes, contains, unique, matches, is_id_char, is_digit, is_empty, Map, lookup, insert,
  values, Floats, raised, ltb, leb, if◌then◌else◌,
}
use malacca_port_resilience.Authority.{ends_with_offset}

-- Numbers with what the assessment calls besides arithmetic. `fixed` is `Number(x.toFixed(d))`, and
-- `fixed_text` the text of it.
pub record TrafficMath (F : Type 0) : Type 0 where
  pub floats : Floats F
  pub min_of : F → F → F
  pub max_of : F → F → F
  pub modulo : F → F → F
  pub sqrt : F → F
  pub sin : F → F
  pub cos : F → F
  pub asin : F → F
  pub atan2 : F → F → F
  pub hypot : F → F → F
  pub pi : F
  pub infinity : F
  pub fixed : F → ℕ → F
  pub fixed_text : F → ℕ → String
  pub parse_date : String → Option ℕ

-- A text that is empty stands for an identity that is missing.
pub record Observation (F : Type 0) : Type 0 where
  pub source_id : String
  pub source_type : String
  pub track_id : String
  pub mmsi : String
  pub imo : String
  pub observed_at : String
  pub latitude : F
  pub longitude : F
  pub speed_over_ground_knots : F
  pub course_over_ground_degrees : F
  pub horizontal_accuracy_meters : F

pub data Quality : Type 0 where
  multi_source_correlated : Quality
  single_source : Quality
  source_conflict : Quality

pub record FusedTrack (F : Type 0) : Type 0 where
  pub vessel_identity : String
  pub observed_at : String
  pub latitude : F
  pub longitude : F
  pub speed_over_ground_knots : F
  pub course_over_ground_degrees : F
  pub source_types : List String
  pub source_count : ℕ
  pub quality : Quality
  pub conflicts : List String

abbrev pub sensor_types : List String
sensor_types = "AIS" ∷ "RADAR" ∷ "VTS" ∷ "EO_IR" ∷ []

abbrev pub vessel_identity_of : {F : Type 0} → Observation F → String
vessel_identity_of o = if str_eq o.imo "" then "MMSI:" ++ˢ o.mmsi else "IMO:" ++ˢ o.imo

-- A date that is NaN is not later than another.
abbrev pub is_later : Option ℕ → Option ℕ → Bool
is_later (some a) (some b) = ltb b a
is_later _ _ = false

abbrev pub first_text : {F : Type 0} → (Observation F → String) → List (Observation F) → String
first_text f [] = ""
first_text f (o ∷ rest) = f o

module _ {F : Type 0} (g : TrafficMath F) where
  abbrev pub lit : ℕ → ℕ → F
  lit m d = g.floats.decimal m d

  abbrev pub plus : F → F → F
  plus a b = g.floats.add a b

  abbrev pub minus : F → F → F
  minus a b = g.floats.sub a b

  abbrev pub by : F → F → F
  by a b = g.floats.mul a b

  abbrev pub over : F → F → F
  over a b = g.floats.div a b

  abbrev pub square : F → F
  square a = by a a

  abbrev pub radians : F → F
  radians d = over (by d g.pi) (lit 180 0)

  unfoldable pub distance_nm : F → F → F → F → F
  distance_nm latitude longitude latitude' longitude' =
      let dlat = radians (minus latitude' latitude) in
      let dlon = radians (minus longitude' longitude) in
      let a = plus (square (g.sin (over dlat (lit 2 0)))) (
        by (by (g.cos (radians latitude)) (g.cos (radians latitude')))
          (square (g.sin (over dlon (lit 2 0))))) in
      by (by (lit 2 0) (lit 3440065 3)) (g.asin (g.min_of (lit 1 0) (g.sqrt a)))

  -- `!Number.isFinite(x) || x < low || x > high`
  abbrev outside_range : F → F → F → Bool
  outside_range low high x = not (g.floats.is_finite x) || (g.floats.lt x low || g.floats.lt high x)

  -- The age in seconds, where the date can be read.
  abbrev age_seconds : ℕ → String → Option F
  age_seconds now at = elim (g.parse_date at) [
    | none ↦ none
    | some t ↦ some (over (minus (g.floats.of_ℕ now) (g.floats.of_ℕ t)) (lit 1000 0))
  ]

  abbrev if_age : (F → Bool) → Option F → Bool
  if_age t none = false
  if_age t (some age) = t age

  abbrev negative : ℕ → F
  negative n = minus (lit 0 0) (lit n 0)

  abbrev pub observation_checks : ℕ → F → Observation F → List (Bool × String)
  observation_checks now maximum_age o =
      let age = age_seconds now o.observed_at in
      (not (matches is_id_char 2 160 o.source_id), "source_id_invalid")
      ∷ (not (contains o.source_type sensor_types), "source_type_invalid")
      ∷ (not (matches is_id_char 2 160 o.track_id), "track_id_invalid")
      ∷ (str_eq o.mmsi "" && str_eq o.imo "", "vessel_identity_missing")
      ∷ (not (str_eq o.mmsi "") && not (matches is_digit 9 9 o.mmsi), "mmsi_invalid")
      ∷ (not (str_eq o.imo "") && not (matches is_digit 7 7 o.imo), "imo_invalid")
      ∷ (
        not (ends_with_offset (codes o.observed_at)) || not (is_some (g.parse_date o.observed_at)),
        "observed_at_invalid",
      )
      ∷ (if_age (λ s. g.floats.lt s (negative 30)) age, "observation_from_future")
      ∷ (if_age (λ s. g.floats.lt maximum_age s) age, "observation_stale")
      ∷ (outside_range (negative 90) (lit 90 0) o.latitude, "latitude_invalid")
      ∷ (outside_range (negative 180) (lit 180 0) o.longitude, "longitude_invalid")
      ∷ (outside_range (lit 0 0) (lit 80 0) o.speed_over_ground_knots, "speed_invalid")
      ∷ (
        not (g.floats.is_finite o.course_over_ground_degrees)
            || (g.floats.lt o.course_over_ground_degrees (lit 0 0)
                || g.floats.le (lit 360 0) o.course_over_ground_degrees),
        "course_invalid",
      )
      ∷ (
        not (g.floats.is_finite o.horizontal_accuracy_meters)
            || (g.floats.le o.horizontal_accuracy_meters (lit 0 0)
                || g.floats.lt (lit 10000 0) o.horizontal_accuracy_meters),
        "horizontal_accuracy_invalid",
      )
      ∷ []

  -- `validateObservation`
  unfoldable pub validate_observation : ℕ → F → Observation F → List String
  validate_observation now maximum_age o = raised (observation_checks now maximum_age o)

  -- The latest observation of each source, in the order in which the sources come.
  unfoldable pub latest_by_source : List (Observation F) → Map (Observation F) → Map (Observation F)
  latest_by_source [] m = m
  latest_by_source (o ∷ rest) m = latest_by_source rest (elim (lookup o.source_id m) [
    | none ↦ insert o.source_id o m
    | some previous ↦
        if is_later (g.parse_date o.observed_at) (g.parse_date previous.observed_at)
        then insert o.source_id o m
        else m
  ])

  abbrev separation : Observation F → Observation F → F
  separation left right = distance_nm left.latitude left.longitude right.latitude right.longitude

  abbrev pub disagree : F → Observation F → Observation F → Bool
  disagree correlation left right =
      let uncertainty =
        over (by (plus left.horizontal_accuracy_meters right.horizontal_accuracy_meters) (lit 3 0))
          (lit 1852 0) in
      g.floats.lt (g.max_of correlation uncertainty) (separation left right)

  unfoldable pub conflicts_with : F → Observation F → List (Observation F) → List String
  conflicts_with correlation left [] = []
  conflicts_with correlation left (right ∷ rest) =
      let others = conflicts_with correlation left rest in
      if disagree correlation left right
      then (left.source_id
          ++ˢ ":"
          ++ˢ right.source_id
          ++ˢ ":"
          ++ˢ g.fixed_text (separation left right) 3
          ++ˢ "nm")
        ∷ others
      else others

  unfoldable pub conflicts_of : F → List (Observation F) → List String
  unfolding conflicts_with
  conflicts_of correlation [] = []
  conflicts_of correlation (left ∷ rest) =
      conflicts_with correlation left rest ++ conflicts_of correlation rest

  abbrev weight : Observation F → F
  weight o = over (lit 1 0) (square (g.max_of (lit 1 0) o.horizontal_accuracy_meters))

  -- `candidates.reduce((total, c, i) => total + f(c) * weights[i], 0)`
  abbrev weighted : (Observation F → F) → F → List (Observation F) → F
  weighted f total [] = total
  weighted f total (o ∷ rest) = weighted f (plus total (by (f o) (weight o))) rest

  abbrev weight_sum : F → List (Observation F) → F
  weight_sum total [] = total
  weight_sum total (o ∷ rest) = weight_sum (plus total (weight o)) rest

  abbrev mean : (Observation F → F) → List (Observation F) → F
  mean f os = over (weighted f (lit 0 0) os) (weight_sum (lit 0 0) os)

  abbrev newest : String → List (Observation F) → String
  newest best [] = best
  newest best (o ∷ rest) =
      newest
        (if is_later (g.parse_date o.observed_at) (g.parse_date best) then o.observed_at else best)
        rest

  abbrev pub quality_of : List String → List String → Quality
  quality_of conflicts types =
      if is_empty conflicts
      then if leb 2 (length types) then multi_source_correlated else single_source
      else source_conflict

  -- `fuse`, of observations that are not none.
  unfoldable pub fuse : F → List (Observation F) → FusedTrack F
  unfolding latest_by_source conflicts_of
  fuse correlation observations =
      let candidates = values (latest_by_source observations []) in
      let conflicts = conflicts_of correlation candidates in
      let east =
        mean (λ o. by o.speed_over_ground_knots (g.sin (radians o.course_over_ground_degrees)))
          candidates in
      let north =
        mean (λ o. by o.speed_over_ground_knots (g.cos (radians o.course_over_ground_degrees)))
          candidates in
      let types = unique (map (λ o. o.source_type) candidates) in
      record {
        vessel_identity = first_text vessel_identity_of candidates;
        observed_at = newest (first_text (λ o. o.observed_at) candidates) candidates;
        latitude = mean (λ o. o.latitude) candidates;
        longitude = mean (λ o. o.longitude) candidates;
        speed_over_ground_knots = g.hypot east north;
        course_over_ground_degrees =
            g.modulo (plus (over (by (g.atan2 east north) (lit 180 0)) g.pi) (lit 360 0))
              (lit 360 0);
        source_types = types;
        source_count = length candidates;
        quality = quality_of conflicts types;
        conflicts = conflicts;
      }
