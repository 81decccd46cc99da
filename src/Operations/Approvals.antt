-- ===== src/Operations/Approvals.antt =====
-- server/operationalSimulator.ts, `createDecision` and `approveDecision`.
use Prim.Native.String.{◌++◌ as ◌++ˢ◌}
use malacca_port_resilience.Prelude.{
  ℕ, suc, Bool, true, false, not, ◌||◌, String, Option, none, some, List, [], ◌∷◌, ◌++◌, map,
  length, any, ltb, ◌==◌, if◌then◌else◌, Result, ok, err, Floats, insert, unique, is_empty,
}
use malacca_port_resilience.Simulator.{
  Action, hold_plan, eco_speed, arrival_window, port_diversion, capacity_control, Simulator,
}
use malacca_port_resilience.Operations.Decisions.{
  pending_approval, approved, Controller, fcfs, port_sop, operations_research, mpc, rl_checkpoint,
  operator, safety_officer, Approver, Approval, ProjectedAction, Decision, decision_created,
  decision_approved,
}
use malacca_port_resilience.Operations.Candidates.{
  OpsError, unknown_controller, missing_completed_checkpoint_inference, decision_not_found,
  decision_not_pending, dual_approval_required, SnapshotGate, Candidate, recommendations,
}
use malacca_port_resilience.Operations.State.{
  Platform, Clock, Service, is_pending, find, log, write, snapshot,
}

abbrev controller_index : Controller → ℕ
controller_index fcfs = 0
controller_index port_sop = 1
controller_index operations_research = 2
controller_index mpc = 3
controller_index rl_checkpoint = 4

abbrev controller_name : Controller → String
controller_name fcfs = "fcfs"
controller_name port_sop = "port-sop"
controller_name operations_research = "operations-research"
controller_name mpc = "mpc"
controller_name rl_checkpoint = "rl-checkpoint"

abbrev pub is_operator : Approver → Bool
is_operator a = elim a.role [ operator ↦ true | safety_officer ↦ false ]

abbrev pub is_safety_officer : Approver → Bool
is_safety_officer a = elim a.role [ operator ↦ false | safety_officer ↦ true ]

-- The negation of the condition under which `approveDecision` throws DUAL_APPROVAL_REQUIRED.
unfoldable pub is_dual : List Approver → Bool
is_dual approvers = not (
    ltb (length approvers) 2
    || (ltb (length (unique (map (λ a. a.approver_id) approvers))) 2
        || (not (any is_operator approvers) || not (any is_safety_officer approvers))))

unfoldable pub stamp : (ℕ → String) → ℕ → List Approver → List Approval
stamp iso i [] = []
stamp iso i (a ∷ rest) = record { approver = a; approved_at = iso i } ∷ stamp iso (suc i) rest

module _ {F : Type 0} where
  abbrev pub find_controller : Controller → List (Candidate F) → Option (Candidate F)
  find_controller c [] = none
  find_controller c (x ∷ xs) =
      if controller_index x.controller_id == controller_index c
      then some x
      else find_controller c xs

module _ {F : Type 0} (fl : Floats F) where
  abbrev when : Bool → F → F → F
  when b x y = if b then x else y

  -- `Math.min(maximum, Math.max(minimum, value))`
  abbrev clamp : F → F → F → F
  clamp x lo hi =
      let raised = if fl.lt x lo then lo else x in if fl.lt hi raised then hi else raised

  unfoldable pub projected_action : Action → ProjectedAction F
  projected_action a =
      let (defer, divert, capacity, carbon) : F × F × F × F = elim a [
        | hold_plan ↦ (fl.decimal 0 0, fl.decimal 0 0, fl.decimal 1 0, fl.decimal 1 0)
        | eco_speed ↦ (fl.decimal 0 0, fl.decimal 0 0, fl.decimal 1 0, fl.decimal 94 2)
        | arrival_window ↦ (fl.decimal 2 2, fl.decimal 0 0, fl.decimal 1 0, fl.decimal 1 0)
        | port_diversion ↦ (fl.decimal 0 0, fl.decimal 1 2, fl.decimal 1 0, fl.decimal 1 0)
        | capacity_control ↦ (fl.decimal 0 0, fl.decimal 0 0, fl.decimal 102 2, fl.decimal 1 0)
      ] in
      let defer' = clamp defer (fl.decimal 0 0) (fl.decimal 2 2) in
      let divert' = clamp divert (fl.decimal 0 0) (fl.decimal 1 2) in
      let capacity' = clamp capacity (fl.decimal 1 0) (fl.decimal 102 2) in
      let carbon' = clamp carbon (fl.decimal 9 1) (fl.decimal 105 2) in
      let changed =
        (if fl.eq defer defer' then [] else "defer_fraction" ∷ [])
        ++ ((if fl.eq divert divert' then [] else "diversion_fraction" ∷ [])
            ++ ((if fl.eq capacity capacity' then [] else "capacity_multiplier" ∷ [])
                ++ (if fl.eq carbon carbon' then [] else "carbon_multiplier" ∷ []))) in
      record {
        before = record {
          defer_fraction = defer;
          diversion_fraction = divert;
          capacity_multiplier = capacity;
          carbon_multiplier = carbon;
        };
        after = record {
          defer_fraction = defer';
          diversion_fraction = divert';
          capacity_multiplier = capacity';
          carbon_multiplier = carbon';
        };
        triggered_constraints = changed;
        modified = not (is_empty changed);
      }

module _ {F Body Tick : Type 0} (p : Platform F Body Tick) where
  abbrev pub gate : Simulator F Body Tick → SnapshotGate F
  gate sim = record {
    running = sim.running;
    completeness_percent = p.completeness_percent sim;
    communication_available = p.communication_available sim;
  }

  unfoldable pub new_decision : Clock → Controller → Candidate F → Service F Body Tick → Decision F
  new_decision t c chosen svc =
      let input = p.snapshot_hash svc.simulator in
      let digits = p.short_hash (t.iso 0 ∷ controller_name c ∷ input ∷ []) in
      record {
        decision_id = "decision-" ++ˢ digits;
        created_at = t.iso 0;
        correlation_id = "correlation-" ++ˢ digits;
        input_snapshot_hash = input;
        controller_id = c;
        recommended_action = chosen.action_id;
        projected_action = projected_action p.floats chosen.action_id;
        status = pending_approval;
        approvals = [];
        receipt = none;
      }

  abbrev pub store : Clock → Decision F → Service F Body Tick → Service F Body Tick
  store t d svc = log p (t.iso 1) d.correlation_id (decision_created d) (record svc {
    heap = svc.heap ++ d ∷ [];
    decisions = insert d.decision_id (length svc.heap) svc.decisions;
  })

  unfoldable pub create_decision :
      Clock
      → Controller
      → Option Action
      → Service F Body Tick
      → Result OpsError ℕ × Service F Body Tick
  create_decision t c trained svc =
      let shown = snapshot p (t.elapsed 0) svc in
      elim (recommendations p.floats p.round (gate shown.simulator) (p.kpis shown.simulator)
        trained) [
          | err e ↦ (err e, shown)
          | ok candidates ↦ elim (find_controller c candidates) [
            | none ↦ (err unknown_controller, shown)
            | some chosen ↦
                if not chosen.eligible
                then (err missing_completed_checkpoint_inference, shown)
                else (ok (length svc.heap), store t (new_decision t c chosen shown) shown)
          ]
        ]

  unfoldable pub approve_decision :
      Clock → String → List Approver → Service F Body Tick → Result OpsError ℕ × Service F Body Tick
  approve_decision t id approvers svc = elim (find id svc) [
    | none ↦ (err decision_not_found, svc)
    | some (a, d) ↦
        let approvals = stamp t.iso 0 approvers in
        let next = record d { approvals = approvals; status = approved } in
        if not (is_pending d.status)
        then (err decision_not_pending, svc)
        else if not (is_dual approvers)
        then (err dual_approval_required, svc)
        else (
          ok a,
          log p (t.iso (length approvers)) d.correlation_id (decision_approved id approvals)
              (write a next svc),
        )
  ]
