-- ===== src/Assurance.antt =====
-- server/algorithmAssuranceGate.ts: the gate that admits an algorithm's checkpoint on its evidence, and
-- the shield that replaces an unsafe action at run time.
mod EvidenceForms
pub mod Coverage
pub mod Shield
mod Examples
unfoldable pub use EvidenceForms.*
use Prim.Native.String.{◌++◌ as ◌++ˢ◌}
use malacca_port_resilience.Prelude.{
  ℕ, Bool, true, false, not, ◌&&◌, ◌||◌, String, List, [], ◌∷◌, ◌++◌, map, length, any, all, ◌==◌,
  Floats, raised, contains, unique, is_empty, if◌then◌else◌, is_hex, is_id_char, matches,
}
use text.Mathlib.Text.{◌==◌ as str_eq}

abbrev pub is_sha256 : String → Bool
is_sha256 = matches is_hex 64 64

abbrev pub is_stable_id : String → Bool
is_stable_id = matches is_id_char 2 160

-- `list.join(',')`
abbrev pub joined : List String → String
joined [] = ""
joined (x ∷ []) = x
joined (x ∷ y ∷ rest) = x ++ˢ ("," ++ˢ joined (y ∷ rest))

module _ {F : Type 0} where
  unfoldable pub has_category : Category → List (ScenarioEvidence F) → Bool
  has_category c [] = false
  has_category c (s ∷ rest) = (category_index s.category == category_index c) || has_category c rest

  unfoldable pub missing_categories : List Category → List (ScenarioEvidence F) → List String
  missing_categories [] scenarios = []
  missing_categories (c ∷ rest) scenarios =
      let others = missing_categories rest scenarios in
      if has_category c scenarios then others else category_name c ∷ others

module _ {F : Type 0} (fl : Floats F) where
  abbrev below : F → ℕ → ℕ → Bool
  below x low digits = fl.lt x (fl.decimal low digits)

  abbrev above : F → ℕ → ℕ → Bool
  above x high digits = fl.lt (fl.decimal high digits) x

  abbrev pub scenario_checks : ScenarioEvidence F → List (Bool × String)
  scenario_checks s =
      let finite = all fl.is_finite (
        s.objective_mean ∷ s.objective_improvement_lower95 ∷ s.delay_improvement_lower95
        ∷ s.carbon_improvement_lower95 ∷ s.safety_violation_rate_upper95 ∷ []) in
      (
        below s.episodes 50 0 || below s.seeds 5 0,
        "scenario_sample_insufficient:" ++ˢ s.scenario_id,
      )
      ∷ (not finite, "scenario_non_finite_metric:" ++ˢ s.scenario_id)
      ∷ (below s.objective_improvement_lower95 0 0, "objective_regression:" ++ˢ s.scenario_id)
      ∷ (
        above s.safety_violation_count 0 0 || above s.safety_violation_rate_upper95 1 2,
        "safety_violation_gate_failed:" ++ˢ s.scenario_id,
      )
      ∷ []

  unfoldable pub scenario_blockers : List (ScenarioEvidence F) → List String
  scenario_blockers [] = []
  scenario_blockers (s ∷ rest) = raised (scenario_checks s) ++ scenario_blockers rest

  abbrev pub protocol_checks : Evidence F → List (Bool × String)
  protocol_checks e =
      let c = e.candidate in
      let p = e.evaluation_protocol in
      let ids = map (λ s. s.scenario_id) e.scenarios in
      let missing = missing_categories required_categories e.scenarios in
      (
        not (str_eq e.protocol_version "algorithm-assurance-evidence.v1"),
        "protocol_version_invalid",
      )
      ∷ (not (is_stable_id c.algorithm_id), "algorithm_id_invalid")
      ∷ (not (is_sha256 c.checkpoint_sha256), "checkpointSha256_invalid")
      ∷ (not (is_sha256 c.training_data_sha256), "trainingDataSha256_invalid")
      ∷ (not (is_sha256 c.code_sha256), "codeSha256_invalid")
      ∷ (not (is_sha256 c.rollback_checkpoint_sha256), "rollbackCheckpointSha256_invalid")
      ∷ (
        not (is_sha256 p.preregistration_sha256) || not (is_sha256 p.final_test_lock_sha256),
        "evaluation_protocol_fingerprint_invalid",
      )
      ∷ (not (fl.eq p.final_test_evaluation_count (fl.decimal 1 0)), "final_test_reuse_detected")
      ∷ (not p.chronological_split || not p.leakage_checks_passed, "temporal_leakage_gate_failed")
      ∷ (below p.minimum_seed_count 5 0, "insufficient_random_seeds")
      ∷ (below p.total_held_out_episodes 500 0, "insufficient_held_out_episodes")
      ∷ (below p.confidence_level 95 2, "confidence_level_below_95_percent")
      ∷ (
        not (length (unique ids) == length e.scenarios) || any (λ id. not (is_stable_id id)) ids,
        "scenario_identity_invalid",
      )
      ∷ (not (is_empty missing), "scenario_categories_missing:" ++ˢ joined missing)
      ∷ []

  abbrev pub suite_checks : Evidence F → List (Bool × String)
  suite_checks e =
      let o = e.off_policy_evaluation in
      let r = e.robustness in
      let w = e.reward_integrity in
      let s = e.runtime_safety in
      (
        not (contains "DOUBLY_ROBUST" o.methods)
            || not (contains "WEIGHTED_IMPORTANCE_SAMPLING" o.methods),
        "independent_ope_methods_missing",
      )
      ∷ (
        not (
              all fl.is_finite (
                o.effective_sample_size ∷ o.maximum_importance_weight
                ∷ o.estimated_improvement_lower95 ∷ []))
            || (below o.effective_sample_size 200 0
                || (fl.le o.maximum_importance_weight (fl.decimal 0 0)
                    || (above o.maximum_importance_weight 20 0
                        || below o.estimated_improvement_lower95 0 0))),
        "off_policy_evaluation_unreliable",
      )
      ∷ (
        not (
              all fl.is_finite
                (r.population_stability_index_maximum ∷ r.out_of_distribution_detection_auroc ∷ []))
            || (below r.population_stability_index_maximum 0 0
                || above r.population_stability_index_maximum 2 1),
        "distribution_shift_too_large",
      )
      ∷ (
        not (fl.is_finite r.out_of_distribution_detection_auroc)
            || (below r.out_of_distribution_detection_auroc 8 1
                || above r.out_of_distribution_detection_auroc 1 0),
        "out_of_distribution_detection_weak",
      )
      ∷ (
        not r.missing_data_scenarios_passed
            || (not r.sensor_drift_scenarios_passed || below r.adversarial_scenario_count 20 0),
        "robustness_suite_incomplete",
      )
      ∷ (
        below w.probe_count 20 0
            || (not (fl.eq w.probes_passed w.probe_count)
                || (not (fl.eq w.forbidden_action_count (fl.decimal 0 0))
                    || below w.action_coverage_percent 95 0)),
        "reward_integrity_gate_failed",
      )
      ∷ (
        not (
            all (λ b. b)
              (s.safety_shield_tested ∷ s.kill_switch_tested ∷ s.rollback_tested
                ∷ s.audit_receipt_tested ∷ [])),
        "runtime_safety_controls_not_verified",
      )
      ∷ []

  abbrev pub shadow_checks : ShadowEvidence F → List (Bool × String)
  shadow_checks s =
      (not s.site_authorized, "shadow_site_not_authorized")
      ∷ (not (fl.le s.minimum_required_hours s.completed_hours), "shadow_duration_incomplete")
      ∷ (not (is_given s.operator_acceptance_reference), "operator_acceptance_missing")
      ∷ (
        not (fl.eq s.unresolved_severe_incident_count (fl.decimal 0 0)),
        "unresolved_severe_shadow_incident",
      )
      ∷ (not (fl.le (fl.decimal 720 0) s.minimum_required_hours), "shadow_minimum_below_720_hours")
      ∷ []

  -- `evaluateAlgorithmAssurance`
  unfoldable pub evaluate_algorithm_assurance : Evidence F → AssuranceDecision
  evaluate_algorithm_assurance e =
      let offline = unique (
        raised (protocol_checks e) ++ (scenario_blockers e.scenarios ++ raised (suite_checks e))) in
      let shadow = raised (shadow_checks e.shadow) in
      record {
        offline_promotion_ready = is_empty offline;
        offline_blockers = offline;
        shadow_promotion_ready = is_empty offline && is_empty shadow;
        shadow_blockers = shadow;
        production_deployment_ready = false;
        dispatch_allowed = false;
        production_authority = false;
      }
