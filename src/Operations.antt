-- ===== src/Operations.antt =====
-- server/operationalSimulator.ts, `OperationalControlService`: decisions that are created from a
-- recommendation, approved by two people, executed on the simulator at most once per idempotency key,
-- and rolled back; core plans; and the chain of audit records.
mod Decisions
mod Candidates
mod Audit
mod State
mod Approvals
mod Executions
mod CorePlans
pub mod Lifecycle
pub mod Trail
pub mod Replay
pub mod Admission
pub mod Duties
mod Examples
pub use Decisions.*
unfoldable pub use Candidates.*
unfoldable pub use Audit.*
unfoldable pub use State.*
unfoldable pub use Approvals.*
unfoldable pub use Executions.*
unfoldable pub use CorePlans.*
use malacca_port_resilience.Prelude.{ℕ, Bool, String, Option, List, [], ◌∷◌}
use malacca_port_resilience.Simulator.{Action, Scenario}

-- The service's public operations that can change its state, with what the caller gives them.
pub data Call (F : Type 0) : Type 0 where
  snapshot_call : Call F
  control_simulator_call : Bool → Call F
  inject_scenario_call : Scenario → Call F
  create_decision_call : Controller → Option Action → Call F
  approve_decision_call : String → List Approver → Call F
  execute_decision_call rollback_decision_call : String → String → Call F
  execute_core_plan_call : CorePlan F → String → Call F
  rollback_core_plan_call : String → String → Call F

module _ {F Body Tick : Type 0} (p : Platform F Body Tick) where
  -- What a call leaves of the service, whether it returns or throws.
  unfoldable pub run_call : Clock → Call F → Service F Body Tick → Service F Body Tick
  run_call t snapshot_call svc = snapshot p (t.elapsed 0) svc
  run_call t (control_simulator_call start) svc = (control_simulator p t start svc).1
  run_call t (inject_scenario_call scenario) svc = inject_scenario p t scenario svc
  run_call t (create_decision_call c trained) svc = (create_decision p t c trained svc).1
  run_call t (approve_decision_call id approvers) svc = (approve_decision p t id approvers svc).1
  run_call t (execute_decision_call id key) svc = (execute_decision p t id key svc).1
  run_call t (rollback_decision_call id reason) svc = (rollback_decision p t id reason svc).1
  run_call t (execute_core_plan_call plan key) svc = (execute_core_plan p t plan key svc).1
  run_call t (rollback_core_plan_call id reason) svc = (rollback_core_plan p t id reason svc).1

  unfoldable pub run_calls : List (Clock × Call F) → Service F Body Tick → Service F Body Tick
  run_calls [] svc = svc
  run_calls ((t, c) ∷ rest) svc = run_calls rest (run_call t c svc)
