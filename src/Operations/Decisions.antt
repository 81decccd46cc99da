-- ===== src/Operations/Decisions.antt =====
-- server/operationalSimulator.ts: the decisions, receipts and audit records of the control service.
-- Fields that are the same in every record are left out: protocol versions, executors, the hashes of the
-- simulator's dataset, model and configuration, and the authority flags, which are all false.
use malacca_port_resilience.Prelude.{ℕ, Bool, String, Option, List, Map}
use malacca_port_resilience.Simulator.{Action, Scenario, CoreEffect}

pub data DecisionStatus : Type 0 where
  pending_approval approved executed rolled_back failed : DecisionStatus

pub data ReceiptStatus : Type 0 where
  acknowledged reverted : ReceiptStatus

pub data Controller : Type 0 where
  fcfs port_sop operations_research mpc rl_checkpoint : Controller

pub data Role : Type 0 where
  operator safety_officer : Role

pub record Approver : Type 0 where
  pub approver_id : String
  pub role : Role

pub record Approval : Type 0 where
  pub approver : Approver
  pub approved_at : String

-- `kpis` of a snapshot.
pub record Kpis (F : Type 0) : Type 0 where
  pub queue_vessels : F
  pub delay_minutes : F
  pub throughput_teu : F
  pub energy_kwh : F
  pub peak_grid_kw : F
  pub cost_myr : F
  pub carbon_tons : F
  pub service_level_percent : F
  pub safety_risk_percent : F
  pub resilience_index : F

pub record ProjectedKpis (F : Type 0) : Type 0 where
  pub queue_vessels : F
  pub delay_minutes : F
  pub throughput_teu : F
  pub energy_kwh : F
  pub carbon_tons : F
  pub safety_risk_percent : F

pub record Receipt (F : Type 0) : Type 0 where
  pub receipt_id : String
  pub status : ReceiptStatus
  pub executed_at : String
  pub before_kpis : Kpis F
  pub after_kpis : Kpis F
  pub kpi_delta : Kpis F
  pub rollback_reason : Option String

pub record Projection (F : Type 0) : Type 0 where
  pub defer_fraction : F
  pub diversion_fraction : F
  pub capacity_multiplier : F
  pub carbon_multiplier : F

pub record ProjectedAction (F : Type 0) : Type 0 where
  pub before : Projection F
  pub after : Projection F
  pub triggered_constraints : List String
  pub modified : Bool

pub record Decision (F : Type 0) : Type 0 where
  pub decision_id : String
  pub created_at : String
  pub correlation_id : String
  pub input_snapshot_hash : String
  pub controller_id : Controller
  pub recommended_action : Action
  pub projected_action : ProjectedAction F
  pub status : DecisionStatus
  pub approvals : List Approval
  pub receipt : Option (Receipt F)

pub record CoreReceipt (F : Type 0) : Type 0 where
  pub receipt_id : String
  pub proposal_id : String
  pub status : ReceiptStatus
  pub executed_at : String
  pub input_snapshot_hash : String
  pub output_snapshot_hash : String
  pub plan_hash : String
  pub active_domains : List String
  pub applied_effect : CoreEffect F
  pub before_kpis : Kpis F
  pub after_kpis : Kpis F
  pub kpi_delta : Kpis F
  pub domain_delta : Map F
  pub baseline_output_snapshot_hash : String
  pub baseline_kpis : Kpis F
  pub rl_vs_baseline_kpi_delta : Kpis F
  pub rl_vs_baseline_domain_delta : Map F
  pub rollback_reason : Option String

-- The event types of the audit trail, each with its payload.
pub data Event (F : Type 0) : Type 0 where
  simulator_control : Bool → Scenario → ℕ → Event F
  scenario_injected : Scenario → String → Event F
  decision_created : Decision F → Event F
  decision_approved : String → List Approval → Event F
  decision_failed : String → String → Event F
  decision_executed : String → String → Receipt F → String → Event F
  decision_rolled_back : String → String → Event F
  core_plan_executed : CoreReceipt F → Event F
  core_plan_rolled_back : String → String → String → Event F

-- An audit record without its hash, and with it.
pub record AuditBase (F : Type 0) : Type 0 where
  pub sequence : ℕ
  pub audit_time : String
  pub correlation_id : String
  pub event : Event F
  pub previous_hash : String

pub record AuditRecord (F : Type 0) : Type 0 where
  pub base : AuditBase F
  pub hash : String
