-- ===== src/Operations/Executions.antt =====
-- server/operationalSimulator.ts, `executeDecision` and `rollbackDecision`.
use Prim.Native.String.{◌++◌ as ◌++ˢ◌}
use malacca_port_resilience.Prelude.{
  ℕ, true, false, not, String, Option, none, some, List, [], ◌∷◌, reverse, if◌then◌else◌, Result,
  ok, err, Floats, lookup, insert, values,
}
use malacca_port_resilience.Simulator.{hold_plan, Simulator, apply_action}
use malacca_port_resilience.Operations.Decisions.{
  executed, rolled_back, failed, acknowledged, reverted, Kpis, Receipt, Decision, decision_failed,
  decision_executed, decision_rolled_back,
}
use malacca_port_resilience.Operations.Candidates.{
  OpsError, simulator_stopped, data_quality_gate_blocked, decision_not_found,
  invalid_idempotency_key, decision_not_approved, executed_decision_not_found,
}
use malacca_port_resilience.Operations.State.{
  Platform, Clock, Service, Execution, is_approved, is_executed, is_data_loss, is_key, or_default,
  find, log, write, snapshot,
}

module _ {F : Type 0} (fl : Floats F) (round : F → ℕ → F) where
  -- `round(after - before, 3)`, key by key.
  unfoldable pub kpi_delta : Kpis F → Kpis F → Kpis F
  kpi_delta before after = record {
    queue_vessels = round (fl.sub after.queue_vessels before.queue_vessels) 3;
    delay_minutes = round (fl.sub after.delay_minutes before.delay_minutes) 3;
    throughput_teu = round (fl.sub after.throughput_teu before.throughput_teu) 3;
    energy_kwh = round (fl.sub after.energy_kwh before.energy_kwh) 3;
    peak_grid_kw = round (fl.sub after.peak_grid_kw before.peak_grid_kw) 3;
    cost_myr = round (fl.sub after.cost_myr before.cost_myr) 3;
    carbon_tons = round (fl.sub after.carbon_tons before.carbon_tons) 3;
    service_level_percent =
        round (fl.sub after.service_level_percent before.service_level_percent) 3;
    safety_risk_percent = round (fl.sub after.safety_risk_percent before.safety_risk_percent) 3;
    resilience_index = round (fl.sub after.resilience_index before.resilience_index) 3;
  }

module _ {F : Type 0} where
  abbrev pub revert : Decision F → Receipt F → String → Decision F
  revert d r reason = record d {
    status = rolled_back;
    receipt = some (record r { status = reverted; rollback_reason = some reason });
  }

module _ {F Body Tick : Type 0} (p : Platform F Body Tick) where
  -- Why an approved decision cannot be executed now, as the error and as the audited reason.
  unfoldable pub obstacle : Simulator F Body Tick → Option (OpsError × String)
  obstacle sim =
      if not sim.running
      then some (simulator_stopped, "simulator_stopped")
      else if is_data_loss sim.scenario
      then some (data_quality_gate_blocked, "data_quality_gate_blocked")
      else none

  -- `executeDecision` from `this.snapshot()` on.
  unfoldable pub acknowledge :
      Clock → ℕ → Decision F → String → String → Service F Body Tick → Service F Body Tick
  acknowledge t a d id key svc =
      let before = snapshot p (t.elapsed 0) svc in
      let acted = apply_action p.physics p.floats d.recommended_action before.simulator in
      let after = snapshot p (t.elapsed 1) (record before { simulator = acted }) in
      let receipt : Receipt F = record {
        receipt_id = "receipt-" ++ˢ p.short_hash (id ∷ key ∷ []);
        status = acknowledged;
        executed_at = p.event_time acted.latest_tick;
        before_kpis = p.kpis before.simulator;
        after_kpis = p.kpis after.simulator;
        kpi_delta = kpi_delta p.floats p.round (p.kpis before.simulator) (p.kpis after.simulator);
        rollback_reason = none;
      } in
      let done = write a (record d { status = executed; receipt = some receipt }) after in
      log p (t.iso 0) d.correlation_id
        (decision_executed id (p.key_hash key) receipt (p.snapshot_hash after.simulator))
        (record done { idempotency_receipts = insert key a done.idempotency_receipts })

  unfoldable pub refuse :
      Clock → ℕ → Decision F → String → String → Service F Body Tick → Service F Body Tick
  refuse t a d id reason svc =
      log p (t.iso 0) d.correlation_id (decision_failed id reason)
        (write a (record d { status = failed }) svc)

  unfoldable pub execute_decision :
      Clock
      → String
      → String
      → Service F Body Tick
      → Result OpsError Execution × Service F Body Tick
  execute_decision t id key svc =
      if not (is_key key)
      then (err invalid_idempotency_key, svc)
      else elim (lookup key svc.idempotency_receipts) [
        | some a ↦ (ok (record { address = a; idempotent_replay = true }), svc)
        | none ↦ elim (find id svc) [
          | none ↦ (err decision_not_found, svc)
          | some (a, d) ↦
              if not (is_approved d.status)
              then (err decision_not_approved, svc)
              else elim (obstacle svc.simulator) [
                | some (e, reason) ↦ (err e, refuse t a d id reason svc)
                | none ↦ (
                  ok (record { address = a; idempotent_replay = false }),
                  acknowledge t a d id key svc,
                )
              ]
        ]
      ]

  unfoldable pub hold : Service F Body Tick → Service F Body Tick
  hold svc = record svc { simulator = apply_action p.physics p.floats hold_plan svc.simulator }

  unfoldable pub rollback_decision :
      Clock → String → String → Service F Body Tick → Result OpsError ℕ × Service F Body Tick
  rollback_decision t id reason svc = elim (find id svc) [
    | none ↦ (err executed_decision_not_found, svc)
    | some (a, d) ↦ elim d.receipt [
      | none ↦ (err executed_decision_not_found, svc)
      | some r ↦
          let why = or_default reason in
          if not (is_executed d.status) then (err executed_decision_not_found, svc) else (
            ok a,
            log p (t.iso 0) d.correlation_id (decision_rolled_back id why)
                (write a (revert d r why) (hold svc)),
          )
    ]
  ]

  -- The object that `getDecision` returns.
  unfoldable pub get_decision : String → Service F Body Tick → Option (Decision F)
  get_decision id svc = elim (find id svc) [ none ↦ none | some (a, d) ↦ some d ]

  -- `listDecisions`, as addresses: the last created first.
  unfoldable pub list_decisions : Service F Body Tick → List ℕ
  list_decisions svc = reverse (values svc.decisions)
