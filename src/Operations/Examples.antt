-- ===== src/Operations/Examples.antt =====
-- A run of the control service: a decision is created, approved, executed and rolled back, and a core
-- plan is executed.
use Prim.Native.String.{◌++◌ as ◌++ˢ◌}
use malacca_port_resilience.Prelude.{
  ℕ, ◌+◌, ◌≡◌, refl, true, false, String, none, List, [], ◌∷◌, ◌++◌, All, ok, arith, lookup, insert,
  matches, unique,
}
use malacca_port_resilience.Samples.{thousandths}
use malacca_port_resilience.Simulator.{
  plain, normal, outside_envelope, advance, steps, apply_core_control,
  apply_core_control_with_counterfactual,
}
use malacca_port_resilience.Operations.{
  links, run_call, approve_decision, find, create_decision, recommendations, candidate, log,
  new_decision, obstacle, perform_core_plan, plan_obstacle, AuditRecord, Approver, port_sop,
  operator, safety_officer, Kpis, Platform, Clock, Service, CorePlan, Call, create_decision_call,
  approve_decision_call, execute_decision_call, rollback_decision_call, audit_trail, run_calls,
  execute_decision, execute_core_plan, is_dual, snapshot,
}
use malacca_port_resilience.Operations.Lifecycle.{IsSound, Evolves}
use malacca_port_resilience.Operations.Lifecycle.Runs.{run_calls-IsSound}
use malacca_port_resilience.Operations.Trail.{run_calls-verified}
use malacca_port_resilience.Operations.Replay.Keys.{
  execute_decision_replayed, execute_core_plan_replayed,
}
use malacca_port_resilience.Operations.Duties.{SeparateRoles, is_dual-SeparateRoles}
use malacca_port_resilience.Operations.Admission.{Applied, execute_core_plan-Applied}

abbrev kpis : Kpis ℕ
kpis = record {
  queue_vessels = 30000;
  delay_minutes = 90000;
  throughput_teu = 5000000;
  energy_kwh = 800000;
  peak_grid_kw = 900000;
  cost_myr = 400000;
  carbon_tons = 1200;
  service_level_percent = 90000;
  safety_risk_percent = 8000;
  resilience_index = 80000;
}

abbrev joined : List String → String
joined [] = ""
joined (s ∷ rest) = s ++ˢ ("/" ++ˢ joined rest)

abbrev port : Platform ℕ ℕ ℕ
port = record {
  floats = thousandths;
  round = λ x d. x;
  physics = record { tick = λ n scenario control body. (body + 1, n) };
  wall_tick_ms = 5000;
  kpis = λ sim. kpis;
  completeness_percent = λ sim. 99000;
  communication_available = λ sim. true;
  field = λ sim domain name. 0;
  snapshot_hash = λ sim. "snapshot";
  correlation_id = λ sim. "correlation";
  event_time = λ tick. "2026-01-01T00:00:00Z";
  decimal_text = λ n. "n";
  short_hash = joined;
  key_hash = λ key. key;
  record_hash = λ base. "hash";
}

abbrev clock : Clock
clock = record { elapsed = λ i. 0; iso = λ i. "now" }

abbrev fresh : Service ℕ ℕ ℕ
fresh = record {
  simulator = record {
    sequence = 7;
    body = 0;
    latest_tick = 7;
    recent_ticks = 7 ∷ [];
    running = true;
    scenario = normal;
    active_control = none;
  };
  heap = [];
  decisions = [];
  idempotency_receipts = [];
  core_heap = [];
  core_idempotency_receipts = [];
  core_receipts_by_proposal = [];
  audit = [];
}

abbrev approvers : List Approver
approvers =
    record { approver_id = "ops-1"; role = operator }
    ∷ record { approver_id = "safety-1"; role = safety_officer }
    ∷ []

abbrev id : String
id = "decision-now/port-sop/snapshot/"

abbrev key : String
key = "key-0001"

abbrev prepared : List (Clock × Call ℕ)
prepared =
    (clock, create_decision_call port_sop none) ∷ (clock, approve_decision_call id approvers) ∷ []

abbrev whole : List (Clock × Call ℕ)
whole =
    prepared ++ (clock, execute_decision_call id key) ∷ (clock, rollback_decision_call id "") ∷ []

run_calls-IsSound_example :
    All IsSound (run_calls port whole fresh).heap × Evolves [] (run_calls port whole fresh).heap
run_calls-IsSound_example = run_calls-IsSound port whole fresh tt

run_calls-verified_example :
    ((audit_trail port.record_hash (run_calls port whole fresh).audit).verified ≡ true)
    × ((added : List (AuditRecord ℕ)) × ((run_calls port whole fresh).audit ≡ [] ++ added))
unfolding audit_trail links
run_calls-verified_example = run_calls-verified port whole fresh refl

abbrev ready : Service ℕ ℕ ℕ
ready = run_calls port prepared fresh

abbrev done : Service ℕ ℕ ℕ
done = (execute_decision port clock id key ready).1

answered :
    execute_decision port clock id key ready
    ≡ (ok (record { address = 0; idempotent_replay = false }), done)
unfolding execute_decision run_calls matches lookup run_call approve_decision find create_decision
    recommendations advance steps candidate log insert new_decision is_dual unique obstacle
answered = refl

execute_decision_replayed_example :
    let later = run_calls port whole done in
    execute_decision port clock "another" key later
    ≡ (ok (record { address = 0; idempotent_replay = true }), later)
execute_decision_replayed_example =
    execute_decision_replayed port clock clock id "another" key ready done
      (record { address = 0; idempotent_replay = false }) whole answered

abbrev plan : CorePlan ℕ
plan = record {
  proposal_id = "proposal-1";
  input_snapshot_hash = "snapshot";
  input_sequence = 7;
  plan_hash = "plan";
  active_domains = "yard" ∷ [];
  effect = record { remaining_ticks = 3; effect = plain thousandths 12 105 99 1 };
}

abbrev planned : Service ℕ ℕ ℕ
planned = (execute_core_plan port clock plan key fresh).1

plan_answered :
    execute_core_plan port clock plan key fresh
    ≡ (ok (record { address = 0; idempotent_replay = false }), planned)
unfolding execute_core_plan matches lookup advance steps perform_core_plan plan_obstacle
    apply_core_control_with_counterfactual apply_core_control outside_envelope
plan_answered = refl

execute_core_plan_replayed_example :
    let later = run_calls port whole planned in
    execute_core_plan port clock (record plan { proposal_id = "proposal-2" }) key later
    ≡ (ok (record { address = 0; idempotent_replay = true }), later)
execute_core_plan_replayed_example =
    execute_core_plan_replayed port clock clock plan (record plan { proposal_id = "proposal-2" })
      key fresh planned (record { address = 0; idempotent_replay = false }) whole plan_answered

execute_core_plan-Applied_example :
    Applied port plan key
      (snapshot port 0 fresh).simulator
      (record { address = 0; idempotent_replay = false })
      planned
unfolding lookup
execute_core_plan-Applied_example =
    execute_core_plan-Applied port clock plan key fresh planned
      (record { address = 0; idempotent_replay = false }) (omega arith) refl plan_answered

is_dual-SeparateRoles_example : SeparateRoles approvers
unfolding is_dual unique
is_dual-SeparateRoles_example = is_dual-SeparateRoles approvers refl
