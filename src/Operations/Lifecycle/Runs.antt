-- ===== src/Operations/Lifecycle/Runs.antt =====
-- Every call keeps the decisions sound, and moves each of them only forward.
use malacca_port_resilience.Prelude.{
  ◌≡◌, refl, sym, subst, ap, ◌∙◌, true, Option, some, List, [], ◌∷◌, All, Option-cases, Bool-cases,
  inl, inr, arith, lookup, String,
}
use malacca_port_resilience.Simulator.{Action, apply_core_control_with_counterfactual}
use malacca_port_resilience.Operations.{
  DecisionStatus, pending_approval, approved, executed, rolled_back, failed, acknowledged, Decision,
  Receipt, Approval, Approver, Controller, Platform, Clock, Service, Call, snapshot_call,
  control_simulator_call, inject_scenario_call, create_decision_call, approve_decision_call,
  execute_decision_call, rollback_decision_call, execute_core_plan_call, rollback_core_plan_call,
  is_dual, stamp, run_call, run_calls, log, snapshot, control_simulator, inject_scenario,
  create_decision, approve_decision, execute_decision, rollback_decision, revert, or_default, hold,
  execute_core_plan, perform_core_plan, file_receipt, rollback_core_plan, CorePlan, plan_obstacle,
  find_core, is_key,
}
use malacca_port_resilience.Operations.Lifecycle.{
  IsSound, Holds, Follows, Evolves, Evolves-trans, Kept, Kept-refl, Kept-by, Kept-append, Kept-set,
  may_become,
}
use malacca_port_resilience.Operations.Lifecycle.Calls.{
  approve_cases, create_cases, execute_cases, rollback_cases, get-find, approvers-stamp, pending,
  at_approved, at_executed,
}

module _ {F : Type 0} where
  -- A decision whose status may become another does so with everything else that was decided.
  approved-IsSound :
      (t : Clock) (approvers : List Approver) (d : Decision F)
      → is_dual approvers ≡ true
      → d.status ≡ pending_approval
      → IsSound d
      → IsSound (record d { approvals = stamp t.iso 0 approvers; status = approved })
  approved-IsSound t approvers d h s v =
      let unreceived : Holds pending_approval d.approvals d.receipt =
        subst (λ x. Holds x d.approvals d.receipt) s v in
      (ap is_dual (approvers-stamp t.iso 0 approvers) ∙ h, unreceived.1)

  failed-IsSound :
      (d : Decision F) → d.status ≡ approved → IsSound d → IsSound (record d { status = failed })
  failed-IsSound d s v = subst (λ x. Holds x d.approvals d.receipt) s v

  executed-IsSound :
      (d : Decision F) (r : Receipt F)
      → r.status ≡ acknowledged
      → d.status ≡ approved
      → IsSound d
      → IsSound (record d { status = executed; receipt = some r })
  executed-IsSound d r h s v =
      let dual : Holds approved d.approvals d.receipt =
        subst (λ x. Holds x d.approvals d.receipt) s v in
      (dual.0, h)

  reverted-IsSound :
      (d : Decision F) (r : Receipt F) (reason : String)
      → d.status ≡ executed
      → IsSound d
      → IsSound (revert d r reason)
  reverted-IsSound d r reason s v =
      let dual : Holds executed d.approvals d.receipt =
        subst (λ x. Holds x d.approvals d.receipt) s v in
      (dual.0, refl)

  moved :
      (d : Decision F) (s s' : DecisionStatus) (approvals : List Approval)
      (receipt : Option (Receipt F))
      → d.status ≡ s
      → may_become s s' ≡ true
      → Follows d (record d { approvals = approvals; status = s'; receipt = receipt })
  moved d s s' approvals receipt e h = record {
    same_id = refl;
    same_input = refl;
    same_action = refl;
    same_projection = refl;
    status_follows = subst (λ x. may_become x s' ≡ true) (sym e) h;
  }

module _ {F Body Tick : Type 0} (p : Platform F Body Tick) where
  approve-Kept :
      (t : Clock) (id : String) (approvers : List Approver) (svc : Service F Body Tick)
      → Kept svc.heap (approve_decision p t id approvers svc).1.heap
  approve-Kept t id approvers svc = elim (approve_cases p t id approvers svc) [
    | inl e ↦ Kept-by _ _ _ e (Kept-refl svc.heap)
    | inr (a, d, f, h, dual, e) ↦ Kept-by _ _ _ e (
        Kept-set svc.heap a d _ (get-find id svc a d f)
          (approved-IsSound t approvers d dual (pending d.status h))
          (moved d pending_approval approved _ _ (pending d.status h) refl))
  ]

  create-Kept :
      (t : Clock) (c : Controller) (trained : Option Action) (svc : Service F Body Tick)
      → Kept svc.heap (create_decision p t c trained svc).1.heap
  create-Kept t c trained svc = elim (create_cases p t c trained svc) [
    | inl e ↦ Kept-by _ _ _ e (Kept-refl svc.heap)
    | inr (d, v, e) ↦ Kept-by _ _ _ e (Kept-append svc.heap d v)
  ]

  execute-Kept :
      (t : Clock) (id key : String) (svc : Service F Body Tick)
      → Kept svc.heap (execute_decision p t id key svc).1.heap
  execute-Kept t id key svc = elim (execute_cases p t id key svc) [
    | inl e ↦ Kept-by _ _ _ e (Kept-refl svc.heap)
    | inr (a, d, f, h, settled) ↦
        let s = at_approved d.status h in
        let there = get-find id svc a d f in
        elim settled [
          | inl e ↦ Kept-by _ _ _ e (
              Kept-set svc.heap a d _ there (failed-IsSound d s)
                (moved d approved failed _ _ s refl))
          | inr (r, ack, e) ↦ Kept-by _ _ _ e (
              Kept-set svc.heap a d _ there (executed-IsSound d r ack s)
                (moved d approved executed _ _ s refl))
        ]
  ]

  rollback-Kept :
      (t : Clock) (id reason : String) (svc : Service F Body Tick)
      → Kept svc.heap (rollback_decision p t id reason svc).1.heap
  rollback-Kept t id reason svc = elim (rollback_cases p t id reason svc) [
    | inl e ↦ Kept-by _ _ _ e (Kept-refl svc.heap)
    | inr (a, d, r, f, h, e) ↦
        let s = at_executed d.status h in
        Kept-by _ _ _ e (
          Kept-set svc.heap a d _ (get-find id svc a d f)
            (reverted-IsSound d r (or_default reason) s) (moved d executed rolled_back _ _ s refl))
  ]

  perform_core_plan-heap :
      (t : Clock) (plan : CorePlan F) (key : String) (svc : Service F Body Tick)
      → (perform_core_plan p t plan key svc).1.heap ≡ svc.heap
  unfolding perform_core_plan file_receipt log
  perform_core_plan-heap t plan key svc =
      let views =
        (apply_core_control_with_counterfactual p.physics p.floats (λ s. s) p.wall_tick_ms
          plan.effect svc.simulator).0 in
      elim (Option-cases views) [ inl e ↦ ground (arith, e) | inr (v, e) ↦ ground (arith, e) ]

  core_plan-heap :
      (t : Clock) (plan : CorePlan F) (key : String) (svc : Service F Body Tick)
      → (execute_core_plan p t plan key svc).1.heap ≡ svc.heap
  unfolding execute_core_plan
  core_plan-heap t plan key svc = elim (Bool-cases (is_key key)) [
    | inr k ↦ ground (arith, k)
    | inl k ↦ elim (Option-cases (lookup key svc.core_idempotency_receipts)) [
      | inr (b, l) ↦ ground (arith, k, l)
      | inl l ↦
          let shown = snapshot p (t.elapsed 0) svc in
          elim (Option-cases (plan_obstacle p plan shown.simulator)) [
            | inr (e, o) ↦ ground (arith, k, l, o)
            | inl o ↦ ground (arith, k, l, o, perform_core_plan-heap t plan key shown)
          ]
    ]
  ]

  rollback_core-heap :
      (t : Clock) (id reason : String) (svc : Service F Body Tick)
      → (rollback_core_plan p t id reason svc).1.heap ≡ svc.heap
  unfolding rollback_core_plan hold log
  rollback_core-heap t id reason svc = elim (Option-cases (find_core id svc)) [
    | inl e ↦ ground (arith, e)
    | inr ((a, r), e) ↦ ground (arith, e)
  ]

  run_call-Kept :
      (t : Clock) (c : Call F) (svc : Service F Body Tick) → Kept svc.heap (run_call p t c svc).heap
  unfolding run_call control_simulator inject_scenario log
  run_call-Kept t snapshot_call svc = Kept-refl svc.heap
  run_call-Kept t (control_simulator_call start) svc = Kept-refl svc.heap
  run_call-Kept t (inject_scenario_call scenario) svc = Kept-refl svc.heap
  run_call-Kept t (create_decision_call c trained) svc = create-Kept t c trained svc
  run_call-Kept t (approve_decision_call id approvers) svc = approve-Kept t id approvers svc
  run_call-Kept t (execute_decision_call id key) svc = execute-Kept t id key svc
  run_call-Kept t (rollback_decision_call id reason) svc = rollback-Kept t id reason svc
  run_call-Kept t (execute_core_plan_call plan key) svc =
      Kept-by _ _ _ (core_plan-heap t plan key svc) (Kept-refl svc.heap)
  run_call-Kept t (rollback_core_plan_call id reason) svc =
      Kept-by _ _ _ (rollback_core-heap t id reason svc) (Kept-refl svc.heap)

  -- Over any sequence of calls, whether they return or throw, decisions stay sound: one that is past
  -- approval has the approvals of two different people, an operator and a safety officer among them,
  -- and an acknowledged receipt exactly while it is executed. Each decision's identity, input, action
  -- and projection never change, and its status only moves forward.
  pub run_calls-IsSound :
      (cs : List (Clock × Call F)) (svc : Service F Body Tick)
      → All IsSound svc.heap
      → All IsSound (run_calls p cs svc).heap × Evolves svc.heap (run_calls p cs svc).heap
  unfolding run_calls
  run_calls-IsSound [] svc v = (v, (Kept-refl svc.heap).1)
  run_calls-IsSound ((t, c) ∷ rest) svc v =
      let (sound, moved_on) = run_call-Kept t c svc in
      let (sound', moved_on') = run_calls-IsSound rest (run_call p t c svc) (sound v) in
      (sound', Evolves-trans _ _ _ moved_on moved_on')
