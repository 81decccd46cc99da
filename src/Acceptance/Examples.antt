-- ===== src/Acceptance/Examples.antt =====
-- A site that is ready for delivery, with dates read as the length of their text times a day.
use malacca_port_resilience.Prelude.{
  ℕ, ◌*◌, ◌≡◌, refl, true, String, some, [], ◌∷◌, length, codes, lookup, matches, unique, without,
  Map,
}
use malacca_port_resilience.Samples.{thousandths, thousandths-FloatsLaws}
use malacca_port_resilience.Authority.{ends_with_offset}
use malacca_port_resilience.Acceptance.{
  FieldKpi, non_inferior, Signoff, AcceptanceTest, SiteEvidence, SitePlatform, is_placeholder,
  missing, site_instant, window_blockers, kpi_blockers, passed_phases, verify_signoff,
  is_valid_signoff, valid_signoffs, site_blockers, site_delivery_ready,
}
use malacca_port_resilience.Acceptance.Delivery.{
  IsDelivered, IsCounted, site_delivery_ready_only_if,
}

abbrev digest : String
digest = "0123456789abcdef0123456789abcdef0123456789abcdef0123456789abcdef"

abbrev platform : SitePlatform ℕ
platform = record {
  digest = λ e. digest;
  verify = λ key s. true;
  parse_date = λ s. some (length (codes s) * 86400000);
}

abbrev kpi : String → FieldKpi ℕ
kpi id = record {
  kpi_id = id;
  direction = non_inferior;
  unit = "min";
  baseline_mean = 1000;
  shadow_mean = 900;
  improvement_lower95_percent = 5000;
  required_improvement_percent = 5000;
  baseline_sample_count = 30000;
  shadow_sample_count = 30000;
  missing_percent = 1000;
  independent_measurement = true;
  source_system = "tos-1";
  source_extract_sha256 = digest;
  measurement_method_reference = "method-1";
}

abbrev test : String → AcceptanceTest
test phase = record {
  phase = phase;
  passed = true;
  witnessed_by_independent_party = true;
  executed_at = "Z";
  evidence_sha256 = digest;
}

abbrev signoff : String → String → Signoff
signoff subject role = record {
  key_id = "key-1";
  subject_id = subject;
  role = role;
  signed_at = "Z";
  acceptance_digest = digest;
  signature = "s";
}

abbrev evidence : SiteEvidence ℕ
evidence = record {
  protocol_version = "site-acceptance-evidence.v1";
  evidence_level = "FIELD_ACCEPTED";
  acceptance_id = "acceptance-1";
  site_id = "site-1";
  project_id = "project-1";
  observation_window = record {
    baseline_start = "Z";
    baseline_end = "xxxxxxxxxxxxxxxxxxxxxxxxxxxxxxZ";
    shadow_start = "Z";
    shadow_end = "xxxxxxxxxxxxxxxxxxxxxxxxxxxxxxZ";
  };
  shadow = record {
    completed_hours = 720000;
    minimum_required_hours = 720000;
    recommendation_count = 100000;
    severe_incident_count = 0;
    unresolved_incident_count = 0;
    production_dispatch_count = 0;
  };
  kpis =
      kpi "VESSEL_WAITING_TIME"
      ∷ kpi "BERTH_PRODUCTIVITY"
      ∷ kpi "ENERGY_INTENSITY"
      ∷ kpi "CARBON_INTENSITY"
      ∷ kpi "SAFETY_EVENTS"
      ∷ [];
  acceptance_tests =
      test "FAT"
      ∷ test "SAT"
      ∷ test "UAT"
      ∷ test "DISASTER_RECOVERY"
      ∷ test "CYBERSECURITY"
      ∷ test "SAFETY"
      ∷ [];
  operations_readiness = record {
    operator_training_completion_percent = 100000;
    maintainer_training_completion_percent = 100000;
    runbook_approved = true;
    on_call_roster_active = true;
    rollback_drill_passed = true;
    data_retention_approved = true;
    cyber_incident_response_drill_passed = true;
  };
  artifacts =
      ("a1", digest) ∷ ("a2", digest) ∷ ("a3", digest) ∷ ("a4", digest) ∷ ("a5", digest) ∷ [];
  acceptance_digest = digest;
  signoffs =
      signoff "s1" "OPERATOR_OWNER"
      ∷ signoff "s2" "SAFETY_OWNER"
      ∷ signoff "s3" "IT_OT_SECURITY"
      ∷ signoff "s4" "DATA_OWNER"
      ∷ signoff "s5" "PROJECT_ACCEPTANCE"
      ∷ [];
}

abbrev trust : Map String
trust = ("key-1", "pem") ∷ []

counted : {id : String} → IsCounted thousandths platform (kpi id)
counted = record { baseline = refl; shadow = refl }

ready : site_delivery_ready thousandths platform trust 8640000000 evidence ≡ true
unfolding site_delivery_ready site_blockers window_blockers kpi_blockers passed_phases
    valid_signoffs is_valid_signoff verify_signoff missing is_placeholder site_instant
    ends_with_offset matches lookup unique without
ready = refl

site_delivery_ready_only_if_example : IsDelivered thousandths platform trust 8640000000 evidence
site_delivery_ready_only_if_example =
    site_delivery_ready_only_if thousandths platform thousandths-FloatsLaws trust 8640000000
      evidence (counted, (counted, (counted, (counted, (counted, tt))))) ready
