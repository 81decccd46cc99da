-- ===== src/Acceptance.antt =====
-- server/siteAcceptanceGate.ts: the gate that accepts a site on its evidence.
mod Forms
pub mod Delivery
mod Examples
pub use Forms.*
use Prim.Native.String.{◌++◌ as ◌++ˢ◌}
use malacca_port_resilience.Prelude.{
  ℕ, ◌+◌, Bool, true, false, not, ◌&&◌, ◌||◌, String, Option, none, some, is_some, List, [], ◌∷◌,
  ◌++◌, map, length, any, all, ltb, leb, ◌==◌, Floats, raised, contains, unique, is_empty,
  is_path_id_char, matches, if◌then◌else◌, codes, between, Map, lookup,
}
use text.Mathlib.Text.{◌==◌ as str_eq}
use malacca_port_resilience.Authority.{ends_with_offset, any_word, is_sha256, is_stable_id}
use malacca_port_resilience.Assurance.{joined}

-- `/(?:example|...|fixture|...)/i`
unfoldable pub is_placeholder : String → Bool
is_placeholder value =
    any_word
      ("example" ∷ "replace" ∷ "pending" ∷ "placeholder" ∷ "todo" ∷ "tbd" ∷ "test-only" ∷ "fixture"
        ∷ "待填写" ∷ "待确认" ∷ [])
      (codes value)

-- `!value.trim()`: nothing but white space and line ends.
abbrev is_space : ℕ → Bool
is_space c =
    between 9 13 c
    || (c == 32
        || (c == 160
            || (c == 5760
                || (between 8192 8202 c
                    || (between 8232 8233 c
                        || (c == 8239 || (c == 8287 || (c == 12288 || c == 65279))))))))

abbrev is_blank : String → Bool
is_blank value = all is_space (codes value)

-- `required.filter((x) => !present.has(x))`
unfoldable pub missing : List String → List String → List String
missing [] present = []
missing (x ∷ rest) present =
    let others = missing rest present in if contains x present then others else x ∷ others

abbrev pub required_kpis : List String
required_kpis =
    "VESSEL_WAITING_TIME" ∷ "BERTH_PRODUCTIVITY" ∷ "ENERGY_INTENSITY" ∷ "CARBON_INTENSITY"
    ∷ "SAFETY_EVENTS" ∷ []

abbrev pub required_phases : List String
required_phases = "FAT" ∷ "SAT" ∷ "UAT" ∷ "DISASTER_RECOVERY" ∷ "CYBERSECURITY" ∷ "SAFETY" ∷ []

abbrev pub required_roles : List String
required_roles =
    "OPERATOR_OWNER" ∷ "SAFETY_OWNER" ∷ "IT_OT_SECURITY" ∷ "DATA_OWNER" ∷ "PROJECT_ACCEPTANCE" ∷ []

module _ {F : Type 0} (fl : Floats F) (p : SitePlatform F) where
  -- `Date.parse(value)` where `validTime(value)`.
  unfoldable pub site_instant : String → Option ℕ
  site_instant value = if ends_with_offset (codes value) then p.parse_date value else none

  abbrev below : F → ℕ → ℕ → Bool
  below x low digits = fl.lt x (fl.decimal low digits)

  abbrev above : F → ℕ → ℕ → Bool
  above x high digits = fl.lt (fl.decimal high digits) x

  -- The time from one instant to another, in units of so many milliseconds.
  abbrev span : ℕ → ℕ → ℕ → F
  span unit from to = fl.div (fl.sub (fl.of_ℕ to) (fl.of_ℕ from)) (fl.decimal unit 0)

  abbrev pub span_checks : ℕ → ShadowRun F → ℕ → ℕ → ℕ → ℕ → List (Bool × String)
  span_checks now s baseline_start baseline_end shadow_start shadow_end =
      let hours = span 3600000 shadow_start shadow_end in
      (below (span 86400000 baseline_start baseline_end) 30 0, "baseline_window_below_30_days")
      ∷ (
        fl.lt hours s.minimum_required_hours || above (fl.abs (fl.sub hours s.completed_hours)) 1 2,
        "shadow_duration_not_evidenced",
      )
      ∷ (ltb (now + 30000) shadow_end, "shadow_window_in_future")
      ∷ []

  unfoldable pub window_blockers : ℕ → ShadowRun F → ObservationWindow → List String
  window_blockers now s w = elim (site_instant w.baseline_start) [
    | none ↦ "observation_window_invalid" ∷ []
    | some a ↦ elim (site_instant w.baseline_end) [
      | none ↦ "observation_window_invalid" ∷ []
      | some b ↦ elim (site_instant w.shadow_start) [
        | none ↦ "observation_window_invalid" ∷ []
        | some c ↦ elim (site_instant w.shadow_end) [
          | none ↦ "observation_window_invalid" ∷ []
          | some d ↦ raised (span_checks now s a b c d)
        ]
      ]
    ]
  ]

  abbrev pub identity_checks : SiteEvidence F → List (Bool × String)
  identity_checks e =
      (not (str_eq e.protocol_version "site-acceptance-evidence.v1"), "protocol_version_invalid")
      ∷ (
        not (all is_stable_id (e.acceptance_id ∷ e.site_id ∷ e.project_id ∷ [])),
        "acceptance_identity_invalid",
      )
      ∷ (
        not (is_sha256 e.acceptance_digest) || not (str_eq e.acceptance_digest (p.digest e)),
        "acceptance_digest_mismatch",
      )
      ∷ []

  abbrev pub shadow_run_checks : ShadowRun F → List (Bool × String)
  shadow_run_checks s =
      (
        below s.minimum_required_hours 720 0 || fl.lt s.completed_hours s.minimum_required_hours,
        "minimum_30_day_shadow_not_completed",
      )
      ∷ (below s.recommendation_count 100 0, "shadow_recommendation_sample_insufficient")
      ∷ (
        above s.severe_incident_count 0 0 || above s.unresolved_incident_count 0 0,
        "shadow_incident_gate_failed",
      )
      ∷ (not (fl.eq s.production_dispatch_count (fl.decimal 0 0)), "shadow_mode_dispatch_detected")
      ∷ []

  abbrev pub kpi_list_checks : List (FieldKpi F) → List (Bool × String)
  kpi_list_checks kpis =
      let ids = map (λ k. k.kpi_id) kpis in
      let lacking = missing required_kpis (unique ids) in
      (not (length (unique ids) == length kpis), "duplicate_kpi_id")
      ∷ (not (is_empty lacking), "required_kpis_missing:" ++ˢ joined lacking)
      ∷ []

  abbrev point_improvement : FieldKpi F → F
  point_improvement k = elim k.direction [
    | lower_is_better ↦
        fl.mul (fl.div (fl.sub k.baseline_mean k.shadow_mean) (fl.abs k.baseline_mean))
          (fl.decimal 100 0)
    | _ ↦
        fl.mul (fl.div (fl.sub k.shadow_mean k.baseline_mean) (fl.abs k.baseline_mean))
          (fl.decimal 100 0)
  ]

  -- The checks of a point estimate, which a non-inferiority claim has none of.
  abbrev pub point_checks : FieldKpi F → List (Bool × String)
  point_checks k =
      let compares : Bool = elim k.direction [ non_inferior ↦ false | _ ↦ true ] in
      let small = below (fl.abs k.baseline_mean) 1 9 in
      let bound = fl.add (point_improvement k) (fl.decimal 1 6) in
      (compares && small, "kpi_small_denominator:" ++ˢ k.kpi_id)
      ∷ (
        compares && (not small && fl.lt bound k.improvement_lower95_percent),
        "kpi_confidence_bound_inconsistent:" ++ˢ k.kpi_id,
      )
      ∷ []

  abbrev pub kpi_checks : FieldKpi F → List (Bool × String)
  kpi_checks k =
      (
        not (is_stable_id k.kpi_id)
            || (is_blank k.unit
                || not (
                    all fl.is_finite (
                      k.baseline_mean ∷ k.shadow_mean ∷ k.improvement_lower95_percent
                      ∷ k.required_improvement_percent ∷ []))),
        "kpi_metric_invalid:" ++ˢ k.kpi_id,
      )
      ∷ (
        below k.baseline_sample_count 30 0 || below k.shadow_sample_count 30 0,
        "kpi_sample_insufficient:" ++ˢ k.kpi_id,
      )
      ∷ (
        below k.missing_percent 0 0 || above k.missing_percent 5 0,
        "kpi_missingness_failed:" ++ˢ k.kpi_id,
      )
      ∷ (not k.independent_measurement, "kpi_not_independently_measured:" ++ˢ k.kpi_id)
      ∷ (
        not (is_sha256 k.source_extract_sha256)
            || (not (is_stable_id k.source_system)
                || (not (is_stable_id k.measurement_method_reference)
                    || is_placeholder k.measurement_method_reference)),
        "kpi_lineage_invalid:" ++ˢ k.kpi_id,
      )
      ∷ (
        fl.lt k.improvement_lower95_percent k.required_improvement_percent,
        "kpi_target_not_met:" ++ˢ k.kpi_id,
      )
      ∷ (below k.required_improvement_percent 0 0, "kpi_target_invalid:" ++ˢ k.kpi_id)
      ∷ point_checks k

  unfoldable pub kpi_blockers : List (FieldKpi F) → List String
  kpi_blockers [] = []
  kpi_blockers (k ∷ rest) = raised (kpi_checks k) ++ kpi_blockers rest

  abbrev is_passed : AcceptanceTest → Bool
  is_passed t =
      t.passed
      && (t.witnessed_by_independent_party
          && (is_sha256 t.evidence_sha256 && is_some (site_instant t.executed_at)))

  unfoldable pub passed_phases : List AcceptanceTest → List String
  passed_phases [] = []
  passed_phases (t ∷ rest) =
      let others = passed_phases rest in if is_passed t then t.phase ∷ others else others

  abbrev bad_artifact : String × String → Bool
  bad_artifact (name, digest) = not (is_stable_id name) || not (is_sha256 digest)

  abbrev pub delivery_checks : SiteEvidence F → List (Bool × String)
  delivery_checks e =
      let lacking = missing required_phases (unique (passed_phases e.acceptance_tests)) in
      let r = e.operations_readiness in
      (not (is_empty lacking), "acceptance_tests_missing:" ++ˢ joined lacking)
      ∷ (
        not (fl.eq r.operator_training_completion_percent (fl.decimal 100 0))
            || (not (fl.eq r.maintainer_training_completion_percent (fl.decimal 100 0))
                || (not r.runbook_approved
                    || (not r.on_call_roster_active
                        || (not r.rollback_drill_passed
                            || (not r.data_retention_approved
                                || not r.cyber_incident_response_drill_passed))))),
        "operations_readiness_incomplete",
      )
      ∷ (
        ltb (length e.artifacts) 5 || any bad_artifact e.artifacts,
        "acceptance_artifacts_incomplete",
      )
      ∷ []

  -- `verifySignoff`; an empty key counts as missing.
  unfoldable pub verify_signoff : Map String → Signoff → Bool
  verify_signoff trust s = elim (lookup s.key_id trust) [
    | none ↦ false
    | some key ↦ not (str_eq key "") && p.verify key s
  ]

  abbrev pub in_time : ℕ → Option ℕ → Bool
  in_time now none = false
  in_time now (some t) = leb t (now + 30000)

  unfoldable pub is_valid_signoff : Map String → ℕ → SiteEvidence F → Signoff → Bool
  is_valid_signoff trust now e s =
      is_stable_id s.key_id
      && (is_stable_id s.subject_id
          && (str_eq s.acceptance_digest e.acceptance_digest
              && (in_time now (site_instant s.signed_at) && verify_signoff trust s)))

  unfoldable pub valid_signoffs : Map String → ℕ → SiteEvidence F → List Signoff → List Signoff
  valid_signoffs trust now e [] = []
  valid_signoffs trust now e (s ∷ rest) =
      let others = valid_signoffs trust now e rest in
      if is_valid_signoff trust now e s then s ∷ others else others

  abbrev pub signoff_checks : Map String → ℕ → SiteEvidence F → List (Bool × String)
  signoff_checks trust now e =
      let valid = valid_signoffs trust now e e.signoffs in
      (
        not (is_empty (missing required_roles (unique (map (λ s. s.role) valid))))
            || ltb (length (unique (map (λ s. s.subject_id) valid))) 5,
        "independent_signoffs_incomplete",
      )
      ∷ (not (str_eq e.evidence_level "FIELD_ACCEPTED"), "field_evidence_not_declared")
      ∷ []

  unfoldable pub site_blockers : Map String → ℕ → SiteEvidence F → List String
  site_blockers trust now e =
      raised (identity_checks e)
      ++ (window_blockers now e.shadow e.observation_window
          ++ (raised (shadow_run_checks e.shadow)
              ++ (raised (kpi_list_checks e.kpis)
                  ++ (kpi_blockers e.kpis
                      ++ (raised (delivery_checks e) ++ raised (signoff_checks trust now e))))))

  -- `siteDeliveryReady` of `evaluateSiteAcceptance`.
  unfoldable pub site_delivery_ready : Map String → ℕ → SiteEvidence F → Bool
  site_delivery_ready trust now e = is_empty (unique (site_blockers trust now e))
