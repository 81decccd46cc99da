-- ===== src/Acceptance/Forms.antt =====
-- server/siteAcceptanceGate.ts: the evidence that a site is accepted on.
use malacca_port_resilience.Prelude.{ℕ, Bool, String, Option, List, Map}

pub data Direction : Type 0 where
  lower_is_better higher_is_better non_inferior : Direction

pub record FieldKpi (F : Type 0) : Type 0 where
  pub kpi_id : String
  pub direction : Direction
  pub unit : String
  pub baseline_mean : F
  pub shadow_mean : F
  pub improvement_lower95_percent : F
  pub required_improvement_percent : F
  pub baseline_sample_count : F
  pub shadow_sample_count : F
  pub missing_percent : F
  pub independent_measurement : Bool
  pub source_system : String
  pub source_extract_sha256 : String
  pub measurement_method_reference : String

pub record Signoff : Type 0 where
  pub key_id : String
  pub subject_id : String
  pub role : String
  pub signed_at : String
  pub acceptance_digest : String
  pub signature : String

pub record ObservationWindow : Type 0 where
  pub baseline_start : String
  pub baseline_end : String
  pub shadow_start : String
  pub shadow_end : String

pub record ShadowRun (F : Type 0) : Type 0 where
  pub completed_hours : F
  pub minimum_required_hours : F
  pub recommendation_count : F
  pub severe_incident_count : F
  pub unresolved_incident_count : F
  pub production_dispatch_count : F

pub record AcceptanceTest : Type 0 where
  pub phase : String
  pub passed : Bool
  pub witnessed_by_independent_party : Bool
  pub executed_at : String
  pub evidence_sha256 : String

pub record OperationsReadiness (F : Type 0) : Type 0 where
  pub operator_training_completion_percent : F
  pub maintainer_training_completion_percent : F
  pub runbook_approved : Bool
  pub on_call_roster_active : Bool
  pub rollback_drill_passed : Bool
  pub data_retention_approved : Bool
  pub cyber_incident_response_drill_passed : Bool

pub record SiteEvidence (F : Type 0) : Type 0 where
  pub protocol_version : String
  pub evidence_level : String
  pub acceptance_id : String
  pub site_id : String
  pub project_id : String
  pub observation_window : ObservationWindow
  pub shadow : ShadowRun F
  pub kpis : List (FieldKpi F)
  pub acceptance_tests : List AcceptanceTest
  pub operations_readiness : OperationsReadiness F
  pub artifacts : Map String
  pub acceptance_digest : String
  pub signoffs : List Signoff

-- Numbers; `siteAcceptanceDigest` of the evidence without its digest and sign-offs; whether a sign-off's
-- signature verifies under a public key (false where that throws); and `Date.parse`.
pub record SitePlatform (F : Type 0) : Type 0 where
  pub digest : SiteEvidence F → String
  pub verify : String → Signoff → Bool
  pub parse_date : String → Option ℕ
