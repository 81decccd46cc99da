-- ===== src/Operations/Candidates.antt =====
-- server/operationalSimulator.ts, `recommendations`: the five controllers' candidates for a snapshot.
use malacca_port_resilience.Prelude.{
  ℕ, Bool, true, not, ◌||◌, Option, none, some, List, [], ◌∷◌, Floats, if◌then◌else◌, Result, ok,
  err, is_some,
}
use malacca_port_resilience.Simulator.{
  Action, hold_plan, eco_speed, arrival_window, port_diversion, capacity_control,
}
use malacca_port_resilience.Operations.Decisions.{
  Kpis, ProjectedKpis, Controller, fcfs, port_sop, operations_research, mpc, rl_checkpoint,
}

pub data OpsError : Type 0 where
  simulator_stopped data_quality_gate_blocked unknown_controller : OpsError
  missing_completed_checkpoint_inference : OpsError
  decision_not_found decision_not_pending dual_approval_required : OpsError
  invalid_idempotency_key decision_not_approved : OpsError
  core_plan_input_snapshot_stale core_control_effect_outside_envelope : OpsError
  executed_core_plan_not_found executed_decision_not_found : OpsError

-- What `recommendations` reads of a snapshot.
pub record SnapshotGate (F : Type 0) : Type 0 where
  pub running : Bool
  pub completeness_percent : F
  pub communication_available : Bool

pub record Candidate (F : Type 0) : Type 0 where
  pub controller_id : Controller
  pub action_id : Action
  pub objective_value : F
  pub projected_kpis : ProjectedKpis F
  pub eligible : Bool

module _ {F : Type 0} (fl : Floats F) (round : F → ℕ → F) where
  -- The five factors of an action, in thousandths: queue, throughput, energy, carbon, safety.
  abbrev factors : Action → ℕ × ℕ × ℕ × ℕ × ℕ
  factors hold_plan = (1000, 1000, 1000, 1000, 1000)
  factors eco_speed = (1010, 995, 960, 940, 980)
  factors arrival_window = (940, 998, 980, 970, 930)
  factors port_diversion = (910, 990, 1010, 1005, 960)
  factors capacity_control = (880, 1015, 1025, 1020, 970)

  unfoldable pub project : Kpis F → Action → ProjectedKpis F
  project current a =
      let (queue, throughput, energy, carbon, safety) = factors a in
      record {
        queue_vessels = round (fl.mul current.queue_vessels (fl.decimal queue 3)) 2;
        delay_minutes = round (fl.mul current.delay_minutes (fl.decimal queue 3)) 2;
        throughput_teu = round (fl.mul current.throughput_teu (fl.decimal throughput 3)) 2;
        energy_kwh = round (fl.mul current.energy_kwh (fl.decimal energy 3)) 2;
        carbon_tons = round (fl.mul current.carbon_tons (fl.decimal carbon 3)) 3;
        safety_risk_percent = round (fl.mul current.safety_risk_percent (fl.decimal safety 3)) 2;
      }

  unfoldable pub objective : ProjectedKpis F → F
  objective k =
      let delay = fl.mul k.delay_minutes (fl.decimal 28 2) in
      let queue = fl.mul k.queue_vessels (fl.decimal 24 2) in
      let carbon = fl.mul (fl.mul k.carbon_tons (fl.decimal 8 0)) (fl.decimal 18 2) in
      let safety = fl.mul k.safety_risk_percent (fl.decimal 2 1) in
      let throughput = fl.mul (fl.div k.throughput_teu (fl.decimal 1000 0)) (fl.decimal 1 1) in
      round (fl.sub (fl.add (fl.add (fl.add delay queue) carbon) safety) throughput) 4

  -- The first of the least: the head of a stable sort by objective.
  unfoldable pub least : Kpis F → Action → List Action → Action
  least current best [] = best
  least current best (a ∷ rest) =
      let next =
        if fl.lt (objective (project current a)) (objective (project current best))
        then a
        else best in
      least current next rest

  abbrev pub choose_best : Kpis F → Action
  choose_best current =
      least current hold_plan (eco_speed ∷ arrival_window ∷ port_diversion ∷ capacity_control ∷ [])

  abbrev pub sop_action : Kpis F → Action
  sop_action current =
      if fl.lt (fl.decimal 15 0) current.safety_risk_percent
      then arrival_window
      else if fl.lt (fl.decimal 24 0) current.queue_vessels
      then capacity_control
      else if fl.lt (fl.decimal 15 1) current.carbon_tons
      then eco_speed
      else hold_plan

  abbrev or_hold : Option Action → Action
  or_hold none = hold_plan
  or_hold (some a) = a

  -- The candidate of a controller; only the checkpoint's can be ineligible.
  unfoldable pub candidate : Kpis F → Option Action → Controller → Candidate F
  candidate current trained c =
      let action : Action = elim c [
        | fcfs ↦ hold_plan
        | port_sop ↦ sop_action current
        | operations_research ↦ choose_best current
        | mpc ↦ choose_best current
        | rl_checkpoint ↦ or_hold trained
      ] in
      let eligible : Bool = elim c [ rl_checkpoint ↦ is_some trained | _ ↦ true ] in
      record {
        controller_id = c;
        action_id = action;
        objective_value = objective (project current action);
        projected_kpis = project current action;
        eligible = eligible;
      }

  unfoldable pub recommendations :
      SnapshotGate F → Kpis F → Option Action → Result OpsError (List (Candidate F))
  recommendations gate current trained =
      if not gate.running
      then err simulator_stopped
      else if fl.lt gate.completeness_percent (fl.decimal 95 0) || not gate.communication_available
      then err data_quality_gate_blocked
      else ok (
          candidate current trained fcfs
          ∷ candidate current trained port_sop
          ∷ candidate current trained operations_research
          ∷ candidate current trained mpc
          ∷ candidate current trained rl_checkpoint
          ∷ [])
