-- ===== src/Assurance/EvidenceForms.antt =====
-- server/algorithmAssuranceGate.ts: the evidence, and the decision on it.
use malacca_port_resilience.Prelude.{ℕ, Bool, false, not, String, Option, none, some, List, [], ◌∷◌}
use text.Mathlib.Text.{◌==◌ as str_eq}

pub data Category : Type 0 where
  normal peak extreme_weather equipment_failure data_loss regulatory_delay : Category

abbrev pub category_index : Category → ℕ
category_index normal = 0
category_index peak = 1
category_index extreme_weather = 2
category_index equipment_failure = 3
category_index data_loss = 4
category_index regulatory_delay = 5

abbrev pub category_name : Category → String
category_name normal = "NORMAL"
category_name peak = "PEAK"
category_name extreme_weather = "EXTREME_WEATHER"
category_name equipment_failure = "EQUIPMENT_FAILURE"
category_name data_loss = "DATA_LOSS"
category_name regulatory_delay = "REGULATORY_DELAY"

abbrev pub required_categories : List Category
required_categories =
    normal ∷ peak ∷ extreme_weather ∷ equipment_failure ∷ data_loss ∷ regulatory_delay ∷ []

pub record ScenarioEvidence (F : Type 0) : Type 0 where
  pub scenario_id : String
  pub category : Category
  pub episodes : F
  pub seeds : F
  pub objective_mean : F
  pub objective_improvement_lower95 : F
  pub delay_improvement_lower95 : F
  pub carbon_improvement_lower95 : F
  pub safety_violation_count : F
  pub safety_violation_rate_upper95 : F

pub record CandidateEvidence : Type 0 where
  pub algorithm_id : String
  pub checkpoint_sha256 : String
  pub training_data_sha256 : String
  pub code_sha256 : String
  pub rollback_checkpoint_sha256 : String

pub record EvaluationProtocol (F : Type 0) : Type 0 where
  pub preregistration_sha256 : String
  pub final_test_lock_sha256 : String
  pub final_test_evaluation_count : F
  pub chronological_split : Bool
  pub leakage_checks_passed : Bool
  pub minimum_seed_count : F
  pub total_held_out_episodes : F
  pub confidence_level : F

pub record OffPolicyEvaluation (F : Type 0) : Type 0 where
  pub methods : List String
  pub effective_sample_size : F
  pub maximum_importance_weight : F
  pub estimated_improvement_lower95 : F

pub record Robustness (F : Type 0) : Type 0 where
  pub population_stability_index_maximum : F
  pub out_of_distribution_detection_auroc : F
  pub missing_data_scenarios_passed : Bool
  pub sensor_drift_scenarios_passed : Bool
  pub adversarial_scenario_count : F

pub record RewardIntegrity (F : Type 0) : Type 0 where
  pub probe_count : F
  pub probes_passed : F
  pub forbidden_action_count : F
  pub action_coverage_percent : F

pub record RuntimeSafety : Type 0 where
  pub safety_shield_tested : Bool
  pub kill_switch_tested : Bool
  pub rollback_tested : Bool
  pub audit_receipt_tested : Bool

pub record ShadowEvidence (F : Type 0) : Type 0 where
  pub site_authorized : Bool
  pub completed_hours : F
  pub minimum_required_hours : F
  pub operator_acceptance_reference : Option String
  pub unresolved_severe_incident_count : F

pub record Evidence (F : Type 0) : Type 0 where
  pub protocol_version : String
  pub candidate : CandidateEvidence
  pub evaluation_protocol : EvaluationProtocol F
  pub scenarios : List (ScenarioEvidence F)
  pub off_policy_evaluation : OffPolicyEvaluation F
  pub robustness : Robustness F
  pub reward_integrity : RewardIntegrity F
  pub runtime_safety : RuntimeSafety
  pub shadow : ShadowEvidence F

pub record AssuranceDecision : Type 0 where
  pub offline_promotion_ready : Bool
  pub offline_blockers : List String
  pub shadow_promotion_ready : Bool
  pub shadow_blockers : List String
  pub production_deployment_ready : Bool
  pub dispatch_allowed : Bool
  pub production_authority : Bool

-- A reference that is neither `null` nor empty.
abbrev pub is_given : Option String → Bool
is_given none = false
is_given (some s) = not (str_eq s "")
