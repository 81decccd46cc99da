-- ===== src/Operations/CorePlans.antt =====
-- server/operationalSimulator.ts, `executeCorePlan` and `rollbackCorePlan`.
use Prim.Native.String.{◌++◌ as ◌++ˢ◌}
use malacca_port_resilience.Prelude.{
  ℕ, true, false, not, ◌||◌, String, Option, none, some, List, [], ◌∷◌, ◌++◌, map, length, set,
  ◌==◌, if◌then◌else◌, Result, ok, err, Map, lookup, insert,
}
use text.Mathlib.Text.{◌==◌ as str_eq}
use malacca_port_resilience.Simulator.{Simulator, apply_core_control_with_counterfactual}
use malacca_port_resilience.Operations.Decisions.{
  acknowledged, reverted, CoreReceipt, core_plan_executed, core_plan_rolled_back,
}
use malacca_port_resilience.Operations.Candidates.{
  OpsError, simulator_stopped, data_quality_gate_blocked, invalid_idempotency_key,
  core_plan_input_snapshot_stale, core_control_effect_outside_envelope,
  executed_core_plan_not_found,
}
use malacca_port_resilience.Operations.State.{
  Platform, Clock, Service, Execution, CorePlan, is_acknowledged, is_data_loss, is_key, or_default,
  find_core, log, snapshot,
}
use malacca_port_resilience.Operations.Executions.{kpi_delta, hold}

-- The fields that `domainDeltas` compares, with their domains.
abbrev domain_fields : List (String × String)
domain_fields =
    ("terminal", "yard_occupancy_percent")
    ∷ ("terminal", "truck_turn_time_minutes")
    ∷ ("equipment", "maintenance_due_count")
    ∷ ("equipment", "active_faults")
    ∷ ("energy", "transformer_loading_percent")
    ∷ ("energy", "battery_soc_percent")
    ∷ ("building", "reefer_power_kw")
    ∷ ("terminal", "rail_transfer_teu")
    ∷ ("terminal", "water_transfer_teu")
    ∷ []

module _ {F Body Tick : Type 0} (p : Platform F Body Tick) where
  unfoldable pub domain_deltas : Simulator F Body Tick → Simulator F Body Tick → Map F
  domain_deltas left right =
      map (λ f. (f.1, p.round (p.floats.sub (p.field left f.0 f.1) (p.field right f.0 f.1)) 3))
        domain_fields

  -- Why a plan is refused before the simulator is touched by it.
  unfoldable pub plan_obstacle : CorePlan F → Simulator F Body Tick → Option OpsError
  plan_obstacle plan sim =
      if not sim.running
      then some simulator_stopped
      else if is_data_loss sim.scenario
      then some data_quality_gate_blocked
      else if not (sim.sequence == plan.input_sequence)
          || not (str_eq (p.snapshot_hash sim) plan.input_snapshot_hash)
      then some core_plan_input_snapshot_stale
      else none

  -- The receipt, from the simulators that the three snapshots show.
  unfoldable pub core_receipt :
      CorePlan F
      → String
      → Simulator F Body Tick
      → Simulator F Body Tick
      → Simulator F Body Tick
      → CoreReceipt F
  core_receipt plan key before baseline after = record {
    receipt_id = "core-receipt-" ++ˢ p.short_hash (plan.proposal_id ∷ key ∷ []);
    proposal_id = plan.proposal_id;
    status = acknowledged;
    executed_at = p.event_time after.latest_tick;
    input_snapshot_hash = plan.input_snapshot_hash;
    output_snapshot_hash = p.snapshot_hash after;
    plan_hash = plan.plan_hash;
    active_domains = plan.active_domains;
    applied_effect = plan.effect;
    before_kpis = p.kpis before;
    after_kpis = p.kpis after;
    kpi_delta = kpi_delta p.floats p.round (p.kpis before) (p.kpis after);
    domain_delta = domain_deltas after before;
    baseline_output_snapshot_hash = p.snapshot_hash baseline;
    baseline_kpis = p.kpis baseline;
    rl_vs_baseline_kpi_delta = kpi_delta p.floats p.round (p.kpis baseline) (p.kpis after);
    rl_vs_baseline_domain_delta = domain_deltas after baseline;
    rollback_reason = none;
  }

  -- The two maps are set to one new object.
  unfoldable pub file_receipt :
      Clock → CorePlan F → String → CoreReceipt F → Service F Body Tick → Service F Body Tick
  file_receipt t plan key r svc =
      let a = length svc.core_heap in
      log p (t.iso 0) ("core-" ++ˢ plan.proposal_id) (core_plan_executed r) (record svc {
        core_heap = svc.core_heap ++ r ∷ [];
        core_idempotency_receipts = insert key a svc.core_idempotency_receipts;
        core_receipts_by_proposal = insert plan.proposal_id a svc.core_receipts_by_proposal;
      })

  unfoldable pub perform_core_plan :
      Clock
      → CorePlan F
      → String
      → Service F Body Tick
      → Result OpsError Execution × Service F Body Tick
  perform_core_plan t plan key svc =
      let (views, sim) =
        apply_core_control_with_counterfactual p.physics p.floats (λ s. s) p.wall_tick_ms
          plan.effect svc.simulator in
      let left = record svc { simulator = sim } in
      elim views [
        | none ↦ (err core_control_effect_outside_envelope, left)
        | some (baseline, after) ↦ (
          ok (record { address = length svc.core_heap; idempotent_replay = false }),
          file_receipt t plan key (core_receipt plan key svc.simulator baseline after) left,
        )
      ]

  unfoldable pub execute_core_plan :
      Clock
      → CorePlan F
      → String
      → Service F Body Tick
      → Result OpsError Execution × Service F Body Tick
  execute_core_plan t plan key svc =
      if not (is_key key)
      then (err invalid_idempotency_key, svc)
      else elim (lookup key svc.core_idempotency_receipts) [
        | some a ↦ (ok (record { address = a; idempotent_replay = true }), svc)
        | none ↦
            let shown = snapshot p (t.elapsed 0) svc in
            elim (plan_obstacle plan shown.simulator) [
              | some e ↦ (err e, shown)
              | none ↦ perform_core_plan t plan key shown
            ]
      ]

  unfoldable pub rollback_core_plan :
      Clock → String → String → Service F Body Tick → Result OpsError ℕ × Service F Body Tick
  rollback_core_plan t id reason svc = elim (find_core id svc) [
    | none ↦ (err executed_core_plan_not_found, svc)
    | some (a, r) ↦
        let why = or_default reason in
        let next = record r { status = reverted; rollback_reason = some why } in
        let held = hold p svc in
        if not (is_acknowledged r.status) then (err executed_core_plan_not_found, svc) else (
          ok a,
          log p (t.iso 0) ("core-" ++ˢ id) (core_plan_rolled_back id r.receipt_id why)
              (record held { core_heap = set held.core_heap a next }),
        )
  ]
