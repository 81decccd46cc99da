-- ===== src/Assurance/Examples.antt =====
-- Evidence that admits a checkpoint, and a state in which an action passes the shield.
use malacca_port_resilience.Prelude.{
  ℕ, ◌≡◌, refl, true, String, some, [], ◌∷◌, get_elem?, matches, unique, without,
}
use malacca_port_resilience.Samples.{thousandths, thousandths-FloatsLaws}
use malacca_port_resilience.Assurance.{
  Category, normal, peak, extreme_weather, equipment_failure, data_loss, regulatory_delay,
  ScenarioEvidence, Evidence, has_category, missing_categories, scenario_blockers,
  evaluate_algorithm_assurance,
}
use malacca_port_resilience.Assurance.Coverage.{IsAdmissible, IsCounted, offline_promotion_covers}
use malacca_port_resilience.Assurance.Shield.{RuntimeState}

abbrev digest : String
digest = "0123456789abcdef0123456789abcdef0123456789abcdef0123456789abcdef"

abbrev scenario : String → Category → ScenarioEvidence ℕ
scenario id c = record {
  scenario_id = id;
  category = c;
  episodes = 60000;
  seeds = 5000;
  objective_mean = 1000;
  objective_improvement_lower95 = 20;
  delay_improvement_lower95 = 10;
  carbon_improvement_lower95 = 10;
  safety_violation_count = 0;
  safety_violation_rate_upper95 = 5;
}

abbrev evidence : Evidence ℕ
evidence = record {
  protocol_version = "algorithm-assurance-evidence.v1";
  candidate = record {
    algorithm_id = "ppo-1";
    checkpoint_sha256 = digest;
    training_data_sha256 = digest;
    code_sha256 = digest;
    rollback_checkpoint_sha256 = digest;
  };
  evaluation_protocol = record {
    preregistration_sha256 = digest;
    final_test_lock_sha256 = digest;
    final_test_evaluation_count = 1000;
    chronological_split = true;
    leakage_checks_passed = true;
    minimum_seed_count = 5000;
    total_held_out_episodes = 500000;
    confidence_level = 950;
  };
  scenarios =
      scenario "s1" normal
      ∷ scenario "s2" peak
      ∷ scenario "s3" extreme_weather
      ∷ scenario "s4" equipment_failure
      ∷ scenario "s5" data_loss
      ∷ scenario "s6" regulatory_delay
      ∷ [];
  off_policy_evaluation = record {
    methods = "DOUBLY_ROBUST" ∷ "WEIGHTED_IMPORTANCE_SAMPLING" ∷ [];
    effective_sample_size = 200000;
    maximum_importance_weight = 20000;
    estimated_improvement_lower95 = 0;
  };
  robustness = record {
    population_stability_index_maximum = 200;
    out_of_distribution_detection_auroc = 800;
    missing_data_scenarios_passed = true;
    sensor_drift_scenarios_passed = true;
    adversarial_scenario_count = 20000;
  };
  reward_integrity = record {
    probe_count = 20000;
    probes_passed = 20000;
    forbidden_action_count = 0;
    action_coverage_percent = 95000;
  };
  runtime_safety = record {
    safety_shield_tested = true;
    kill_switch_tested = true;
    rollback_tested = true;
    audit_receipt_tested = true;
  };
  shadow = record {
    site_authorized = true;
    completed_hours = 720000;
    minimum_required_hours = 720000;
    operator_acceptance_reference = some "acceptance-1";
    unresolved_severe_incident_count = 0;
  };
}

counted : {id : String} {c : Category} → IsCounted thousandths (scenario id c)
counted = record { episodes = refl; seeds = refl; violations = refl }

promoted : (evaluate_algorithm_assurance thousandths evidence).offline_promotion_ready ≡ true
unfolding evaluate_algorithm_assurance matches unique without has_category missing_categories
    scenario_blockers
promoted = refl

offline_promotion_covers_example :
    ((c : Category)
      → (i : ℕ) × (s : ScenarioEvidence ℕ) × (get_elem? evidence.scenarios i ≡ some s)
        × (s.category ≡ c)
        × IsAdmissible thousandths s)
    × ((i : ℕ) (s : ScenarioEvidence ℕ)
        → get_elem? evidence.scenarios i ≡ some s
        → IsAdmissible thousandths s)
offline_promotion_covers_example =
    offline_promotion_covers thousandths thousandths-FloatsLaws evidence
      (counted, (counted, (counted, (counted, (counted, (counted, tt)))))) promoted

abbrev calm : RuntimeState ℕ
calm = record {
  data_completeness_percent = 99000;
  communication_available = true;
  vessel_traffic_critical_encounter_count = 0;
  safety_risk_percent = 8000;
  yard_occupancy_percent = 70000;
  transformer_loading_percent = 60000;
  channel_available = true;
  live_authority_verified = true;
}
