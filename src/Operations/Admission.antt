-- ===== src/Operations/Admission.antt =====
-- When a core plan is executed, and what of it reaches the simulator.
use text.Mathlib.TextEquality.{eq_iff}
use malacca_port_resilience.Prelude.{
  ◌<◌, ◌≡◌, ◌≢◌, refl, sym, subst, ap, ◌∙◌, true, false, none, some, List, [], ◌∷◌, ◌++◌, length,
  get_elem?, Option-cases, Bool-cases, Result, ok, inl, inr, arith, lookup, String,
}
use malacca_port_resilience.Simulator.{
  Simulator, Scenario, data_loss, apply_core_control, force_advance,
}
use malacca_port_resilience.Simulator.Counterfactual.{counterfactual_leaves_no_trace}
use malacca_port_resilience.Operations.{
  OpsError, Execution, CoreReceipt, Platform, Clock, Service, snapshot, log, is_data_loss, is_key,
  execute_core_plan, perform_core_plan, file_receipt, core_receipt, CorePlan, plan_obstacle,
}

not_data_loss : (s : Scenario) → is_data_loss s ≡ false → s ≢ data_loss
not_data_loss data_loss h = cc
not_data_loss s h = λ e. cc

get_last-append : {A : Type 0} (xs : List A) (x : A) → get_elem? (xs ++ x ∷ []) (length xs) ≡ some x
get_last-append [] x = refl
get_last-append (y ∷ ys) x = get_last-append ys x

module _ {F Body Tick : Type 0} (p : Platform F Body Tick) where
  -- The plan is for the snapshot that is current, on a simulator that runs with its data.
  pub record IsCurrent (plan : CorePlan F) (sim : Simulator F Body Tick) : Type 0 where
    pub running : sim.running ≡ true
    pub has_data : sim.scenario ≢ data_loss
    pub same_sequence : sim.sequence ≡ plan.input_sequence
    pub same_snapshot : p.snapshot_hash sim ≡ plan.input_snapshot_hash

  IsCurrent-of :
      (plan : CorePlan F) (sim : Simulator F Body Tick)
      → plan_obstacle p plan sim ≡ none
      → IsCurrent plan sim
  unfolding plan_obstacle
  IsCurrent-of plan sim h = record {
    running = ground (arith, h);
    has_data = not_data_loss sim.scenario (ground (arith, h));
    same_sequence = ground (arith, h);
    same_snapshot = (eq_iff (p.snapshot_hash sim) plan.input_snapshot_hash).0 (ground (arith, h));
  }

  file_receipt_lem :
      (t : Clock) (plan : CorePlan F) (key : String) (r : CoreReceipt F) (svc : Service F Body Tick)
      → ((file_receipt p t plan key r svc).simulator ≡ svc.simulator)
        × (get_elem? (file_receipt p t plan key r svc).core_heap (length svc.core_heap) ≡ some r)
  unfolding file_receipt log
  file_receipt_lem t plan key r svc = (refl, get_last-append svc.core_heap r)

  -- The service after a plan, and what the receipt compares.
  pub record Applied (plan : CorePlan F) (key : String) (before : Simulator F Body Tick)
      (x : Execution) (svc' : Service F Body Tick) : Type 0 where
    pub is_current : IsCurrent plan before
    pub accepted : apply_core_control p.physics p.floats plan.effect before ≡ some svc'.simulator
    pub receipt :
        get_elem? svc'.core_heap x.address
        ≡ some (core_receipt p plan key before (force_advance p.physics 1 before) svc'.simulator)

  abbrev answer : Execution → Service F Body Tick → Result OpsError Execution × Service F Body Tick
  answer x left = (ok x, left)

  answers_alike :
      (x y : Execution) (left right : Service F Body Tick)
      → answer x left ≡ answer y right
      → (x ≡ y) × (left ≡ right)
  answers_alike x y left right h = (cc, ap (λ o. o.1) h)

  performed :
      (t : Clock) (plan : CorePlan F) (key : String) (svc svc' : Service F Body Tick)
      (x : Execution)
      → 0 < p.wall_tick_ms
      → IsCurrent plan svc.simulator
      → perform_core_plan p t plan key svc ≡ (ok x, svc')
      → Applied plan key svc.simulator x svc'
  unfolding perform_core_plan
  performed t plan key svc svc' x w current h =
      let trace =
        counterfactual_leaves_no_trace p.physics p.floats (λ s. s) p.wall_tick_ms plan.effect
          svc.simulator w in
      elim (Option-cases (apply_core_control p.physics p.floats plan.effect svc.simulator)) [
        | inl e ↦ ground (arith, trace, e, h)
        | inr (controlled, e) ↦
            let left = record svc { simulator = controlled } in
            let r =
              core_receipt p plan key svc.simulator (force_advance p.physics 1 svc.simulator)
                controlled in
            let y : Execution = record {
              address = length svc.core_heap;
              idempotent_replay = false;
            } in
            let done : perform_core_plan p t plan key svc
                ≡ (ok y, file_receipt p t plan key r left) =
              ground (arith, trace, e) in
            let (same_sim, there) = file_receipt_lem t plan key r left in
            let filed = file_receipt p t plan key r left in
            let applied : Applied plan key svc.simulator y filed = record {
              is_current = current;
              accepted = e ∙ ap some (sym same_sim);
              receipt =
                  there
                  ∙ ap
                      (λ sim. some (
                        core_receipt p plan key svc.simulator
                          (force_advance p.physics 1 svc.simulator) sim))
                      (sym same_sim);
            } in
            let (same_x, same_svc) = answers_alike y x filed svc' (sym done ∙ h) in
            subst (λ a. Applied plan key svc.simulator a svc') same_x
              (subst (λ s. Applied plan key svc.simulator y s) same_svc applied)
      ]

  -- `executeCorePlan` under a new key answers with a receipt only for a plan that was computed for the
  -- current snapshot of a running simulator that has its data. The plan's effect was accepted, the
  -- simulator is left as that control alone leaves it, and the receipt compares it with one tick
  -- without the control, from the same state.
  pub execute_core_plan-Applied :
      (t : Clock) (plan : CorePlan F) (key : String) (svc svc' : Service F Body Tick)
      (x : Execution)
      → 0 < p.wall_tick_ms
      → lookup key svc.core_idempotency_receipts ≡ none
      → execute_core_plan p t plan key svc ≡ (ok x, svc')
      → Applied plan key (snapshot p (t.elapsed 0) svc).simulator x svc'
  unfolding execute_core_plan
  execute_core_plan-Applied t plan key svc svc' x w l h =
      let shown = snapshot p (t.elapsed 0) svc in
      elim (Bool-cases (is_key key)) [
        | inr k ↦ ground (arith, k, h)
        | inl k ↦ elim (Option-cases (plan_obstacle p plan shown.simulator)) [
          | inr (why, o) ↦ ground (arith, k, l, o, h)
          | inl o ↦
              performed t plan key shown svc' x w (IsCurrent-of plan shown.simulator o)
                (ground (arith, k, l, o, h))
        ]
      ]
