-- ===== src/Readiness/Examples.antt =====
-- The readiness of a site, with numbers in thousandths.
use malacca_port_resilience.Prelude.{◌≡◌, refl, true, ℕ, arith}
use malacca_port_resilience.Samples.{thousandths, thousandths-FloatsLaws}
use malacca_port_resilience.Readiness.{
  ReliabilityInput, assess_reliability_readiness, readiness_iff,
}

abbrev site : ReliabilityInput ℕ
site = record {
  replica_count = 1000;
  backup_age_minutes = 14500;
  restore_drill_age_days = 90000;
  restore_drill_passed = true;
  journal_verified = true;
  alert_route_tested = true;
  runbook_reviewed = true;
  observed_availability_days = 30000;
  observed_availability_percent = 99900;
}

readiness_iff_example :
    (assess_reliability_readiness thousandths site).software_controls_ready ≡ true
readiness_iff_example =
    (readiness_iff thousandths thousandths-FloatsLaws site
        (record { replicas = refl; backup = refl; drill = refl; days = refl; percent = refl })).0.1
      (ground arith)
