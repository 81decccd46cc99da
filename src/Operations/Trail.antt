-- ===== src/Operations/Trail.antt =====
-- Every call keeps the audit trail's chain of hashes, and only adds to it.
use mathlib.Core.List.{append-nil, append_assoc}
use Prim.Native.String.{◌++◌ as ◌++ˢ◌}
use malacca_port_resilience.Prelude.{
  ℕ, ◌≡◌, refl, sym, ap, ◌∙◌, true, ◌&&◌, ◌⊎◌, Option, List, [], ◌∷◌, ◌++◌, length, Option-cases,
  Bool-cases, Result-cases, inl, inr, arith, lookup, String,
}
use malacca_port_resilience.Simulator.{Action, apply_core_control_with_counterfactual}
use malacca_port_resilience.Operations.{
  AuditRecord, AuditBase, Event, decision_approved, decision_rolled_back, core_plan_rolled_back,
  append_audit, append_audit-links, genesis, links, audit_trail, Decision, CoreReceipt, Approver,
  Controller, Platform, Clock, Service, Call, snapshot_call, control_simulator_call,
  inject_scenario_call, create_decision_call, approve_decision_call, execute_decision_call,
  rollback_decision_call, execute_core_plan_call, rollback_core_plan_call, is_dual, is_pending,
  is_approved, is_executed, is_acknowledged, stamp, find, find_core, run_call, run_calls, log,
  snapshot, control_simulator, inject_scenario, create_decision, new_decision, store, gate,
  recommendations, find_controller, approve_decision, execute_decision, acknowledge, refuse,
  obstacle, rollback_decision, or_default, hold, execute_core_plan, perform_core_plan, file_receipt,
  core_receipt, rollback_core_plan, CorePlan, plan_obstacle, is_key,
}

module _ {F : Type 0} (hash : AuditBase F → String) where
  -- A trail after a call: as it was, or with one record more.
  abbrev Logged : List (AuditRecord F) → List (AuditRecord F) → Type 0
  Logged xs ys =
      (ys ≡ xs)
      ⊎ ((now : String) × (correlation : String) × (event : Event F) × (ys
            ≡ append_audit hash now correlation event xs))

  -- A trail that is verified if the first is, and begins with it.
  abbrev Extends : List (AuditRecord F) → List (AuditRecord F) → Type 0
  Extends xs ys =
      (links hash genesis xs ≡ true → links hash genesis ys ≡ true)
      × ((added : List (AuditRecord F)) × (ys ≡ xs ++ added))

  Logged→Extends : (xs ys : List (AuditRecord F)) → Logged xs ys → Extends xs ys
  unfolding append_audit
  Logged→Extends xs ys (inl e) =
      ((λ h. ap (links hash genesis) e ∙ h), ([], e ∙ sym (append-nil xs)))
  Logged→Extends xs ys (inr (now, correlation, event, e)) = (
    (λ h. ap (links hash genesis) e ∙ append_audit-links hash now correlation event xs h),
    (_, e),
  )

module _ {F Body Tick : Type 0} (p : Platform F Body Tick) where
  abbrev LoggedBy : Service F Body Tick → Service F Body Tick → Type 0
  LoggedBy svc svc' = Logged p.record_hash svc.audit svc'.audit

  approve-Logged :
      (t : Clock) (id : String) (approvers : List Approver) (svc : Service F Body Tick)
      → LoggedBy svc (approve_decision p t id approvers svc).1
  unfolding approve_decision log
  approve-Logged t id approvers svc = elim (Option-cases (find id svc)) [
    | inl e ↦ inl (ground (arith, e))
    | inr ((a, d), e) ↦ elim (Bool-cases (is_pending d.status && is_dual approvers)) [
      | inr h ↦ inl (ground (arith, e, h))
      | inl h ↦ inr (
        t.iso (length approvers),
        d.correlation_id,
        decision_approved id (stamp t.iso 0 approvers),
        ground (arith, e, h),
      )
    ]
  ]

  store-Logged :
      (t : Clock) (d : Decision F) (svc : Service F Body Tick) → LoggedBy svc (store p t d svc)
  unfolding log
  store-Logged t d svc = inr (_, _, _, refl)

  create-Logged :
      (t : Clock) (c : Controller) (trained : Option Action) (svc : Service F Body Tick)
      → LoggedBy svc (create_decision p t c trained svc).1
  unfolding create_decision
  create-Logged t c trained svc =
      let shown = snapshot p (t.elapsed 0) svc in
      let offered =
        recommendations p.floats p.round (gate p shown.simulator) (p.kpis shown.simulator)
          trained in
      elim (Result-cases offered) [
        | inr (e, h) ↦ inl (ground (arith, h))
        | inl (candidates, h) ↦ elim (Option-cases (find_controller c candidates)) [
          | inl g ↦ inl (ground (arith, h, g))
          | inr (chosen, g) ↦ elim (Bool-cases chosen.eligible) [
            | inr e ↦ inl (ground (arith, h, g, e))
            | inl e ↦
                let d = new_decision p t c chosen shown in
                let same : (create_decision p t c trained svc).1 ≡ store p t d shown =
                  ground (arith, h, g, e) in
                rw same (store-Logged t d shown)
          ]
        ]
      ]

  settle-Logged :
      (t : Clock) (a : ℕ) (d : Decision F) (id key reason : String) (svc : Service F Body Tick)
      → LoggedBy svc (acknowledge p t a d id key svc) × LoggedBy svc (refuse p t a d id reason svc)
  unfolding acknowledge refuse log
  settle-Logged t a d id key reason svc = (inr (_, _, _, refl), inr (_, _, _, refl))

  execute-Logged :
      (t : Clock) (id key : String) (svc : Service F Body Tick)
      → LoggedBy svc (execute_decision p t id key svc).1
  unfolding execute_decision
  execute-Logged t id key svc = elim (Bool-cases (is_key key)) [
    | inr k ↦ inl (ground (arith, k))
    | inl k ↦ elim (Option-cases (lookup key svc.idempotency_receipts)) [
      | inr (b, l) ↦ inl (ground (arith, k, l))
      | inl l ↦ elim (Option-cases (find id svc)) [
        | inl e ↦ inl (ground (arith, k, l, e))
        | inr ((a, d), e) ↦ elim (Bool-cases (is_approved d.status)) [
          | inr h ↦ inl (ground (arith, k, l, e, h))
          | inl h ↦ elim (Option-cases (obstacle p svc.simulator)) [
            | inr ((why, reason), o) ↦
                let same : (execute_decision p t id key svc).1 ≡ refuse p t a d id reason svc =
                  ground (arith, k, l, e, h, o) in
                rw same (settle-Logged t a d id key reason svc).1
            | inl o ↦
                let same : (execute_decision p t id key svc).1 ≡ acknowledge p t a d id key svc =
                  ground (arith, k, l, e, h, o) in
                rw same (settle-Logged t a d id key key svc).0
          ]
        ]
      ]
    ]
  ]

  rollback-Logged :
      (t : Clock) (id reason : String) (svc : Service F Body Tick)
      → LoggedBy svc (rollback_decision p t id reason svc).1
  unfolding rollback_decision hold log
  rollback-Logged t id reason svc = elim (Option-cases (find id svc)) [
    | inl e ↦ inl (ground (arith, e))
    | inr ((a, d), e) ↦ elim (Option-cases d.receipt) [
      | inl n ↦ inl (ground (arith, e, n))
      | inr (r, n) ↦ elim (Bool-cases (is_executed d.status)) [
        | inr h ↦ inl (ground (arith, e, n, h))
        | inl h ↦ inr (
          t.iso 0,
          d.correlation_id,
          decision_rolled_back id (or_default reason),
          ground (arith, e, n, h),
        )
      ]
    ]
  ]

  file_receipt-Logged :
      (t : Clock) (plan : CorePlan F) (key : String) (r : CoreReceipt F) (svc : Service F Body Tick)
      → LoggedBy svc (file_receipt p t plan key r svc)
  unfolding file_receipt log
  file_receipt-Logged t plan key r svc = inr (_, _, _, refl)

  perform_core_plan-Logged :
      (t : Clock) (plan : CorePlan F) (key : String) (svc : Service F Body Tick)
      → LoggedBy svc (perform_core_plan p t plan key svc).1
  unfolding perform_core_plan
  perform_core_plan-Logged t plan key svc =
      let ran =
        apply_core_control_with_counterfactual p.physics p.floats (λ s. s) p.wall_tick_ms
          plan.effect svc.simulator in
      elim (Option-cases ran.0) [
        | inl e ↦ inl (ground (arith, e))
        | inr ((baseline, after), e) ↦
            let r = core_receipt p plan key svc.simulator baseline after in
            let left = record svc { simulator = ran.1 } in
            let same : (perform_core_plan p t plan key svc).1 ≡ file_receipt p t plan key r left =
              ground (arith, e) in
            rw same (file_receipt-Logged t plan key r left)
      ]

  core_plan-Logged :
      (t : Clock) (plan : CorePlan F) (key : String) (svc : Service F Body Tick)
      → LoggedBy svc (execute_core_plan p t plan key svc).1
  unfolding execute_core_plan
  core_plan-Logged t plan key svc = elim (Bool-cases (is_key key)) [
    | inr k ↦ inl (ground (arith, k))
    | inl k ↦ elim (Option-cases (lookup key svc.core_idempotency_receipts)) [
      | inr (b, l) ↦ inl (ground (arith, k, l))
      | inl l ↦
          let shown = snapshot p (t.elapsed 0) svc in
          elim (Option-cases (plan_obstacle p plan shown.simulator)) [
            | inr (e, o) ↦ inl (ground (arith, k, l, o))
            | inl o ↦
                let same : (execute_core_plan p t plan key svc).1
                    ≡ (perform_core_plan p t plan key shown).1 =
                  ground (arith, k, l, o) in
                rw same (perform_core_plan-Logged t plan key shown)
          ]
    ]
  ]

  rollback_core-Logged :
      (t : Clock) (id reason : String) (svc : Service F Body Tick)
      → LoggedBy svc (rollback_core_plan p t id reason svc).1
  unfolding rollback_core_plan hold log
  rollback_core-Logged t id reason svc = elim (Option-cases (find_core id svc)) [
    | inl e ↦ inl (ground (arith, e))
    | inr ((a, r), e) ↦ elim (Bool-cases (is_acknowledged r.status)) [
      | inr h ↦ inl (ground (arith, e, h))
      | inl h ↦ inr (
        t.iso 0,
        "core-" ++ˢ id,
        core_plan_rolled_back id r.receipt_id (or_default reason),
        ground (arith, e, h),
      )
    ]
  ]

  run_call-Logged :
      (t : Clock) (c : Call F) (svc : Service F Body Tick) → LoggedBy svc (run_call p t c svc)
  unfolding run_call control_simulator inject_scenario log
  run_call-Logged t snapshot_call svc = inl refl
  run_call-Logged t (control_simulator_call start) svc = inr (_, _, _, refl)
  run_call-Logged t (inject_scenario_call scenario) svc = inr (_, _, _, refl)
  run_call-Logged t (create_decision_call c trained) svc = create-Logged t c trained svc
  run_call-Logged t (approve_decision_call id approvers) svc = approve-Logged t id approvers svc
  run_call-Logged t (execute_decision_call id key) svc = execute-Logged t id key svc
  run_call-Logged t (rollback_decision_call id reason) svc = rollback-Logged t id reason svc
  run_call-Logged t (execute_core_plan_call plan key) svc = core_plan-Logged t plan key svc
  run_call-Logged t (rollback_core_plan_call id reason) svc = rollback_core-Logged t id reason svc

  -- Over any sequence of calls a verified audit trail stays verified, and the records that it had stay
  -- at its beginning.
  pub run_calls-verified :
      (cs : List (Clock × Call F)) (svc : Service F Body Tick)
      → (audit_trail p.record_hash svc.audit).verified ≡ true
      → ((audit_trail p.record_hash (run_calls p cs svc).audit).verified ≡ true)
        × ((added : List (AuditRecord F)) × ((run_calls p cs svc).audit ≡ svc.audit ++ added))
  unfolding run_calls audit_trail
  run_calls-verified [] svc v = (v, ([], sym (append-nil svc.audit)))
  run_calls-verified ((t, c) ∷ rest) svc v =
      let (kept, (added, e)) =
        Logged→Extends p.record_hash svc.audit (run_call p t c svc).audit
          (run_call-Logged t c svc) in
      let (verified, (more, e')) = run_calls-verified rest (run_call p t c svc) (kept v) in
      (verified, (added ++ more, e' ∙ ap (λ a. a ++ more) e ∙ append_assoc svc.audit added more))
