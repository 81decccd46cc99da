-- ===== src/Operations/Replay/Keys.antt =====
-- A key that was executed is answered from its receipt, whatever was called in between.
use malacca_port_resilience.Prelude.{
  ℕ, ◌≡◌, refl, sym, ap, ◌∙◌, true, false, none, some, List, [], ◌∷◌, length, Option-cases,
  Bool-cases, Result, ok, err, inl, inr, arith, lookup, lookup-insert_self, String, Map,
}
use malacca_port_resilience.Simulator.{apply_core_control_with_counterfactual}
use malacca_port_resilience.Operations.{
  OpsError, core_control_effect_outside_envelope, Execution, Decision, CoreReceipt, Platform, Clock,
  Service, Call, snapshot_call, control_simulator_call, inject_scenario_call, create_decision_call,
  approve_decision_call, execute_decision_call, rollback_decision_call, execute_core_plan_call,
  rollback_core_plan_call, is_approved, find, run_call, run_calls, log, snapshot, control_simulator,
  inject_scenario, execute_decision, create_decision, approve_decision, rollback_decision,
  rollback_core_plan, acknowledge, refuse, obstacle, execute_core_plan, perform_core_plan,
  file_receipt, core_receipt, CorePlan, plan_obstacle, is_key,
}
use malacca_port_resilience.Operations.Replay.{
  Keeps-insert, Retains, Retains-same, SameReceipts, approve-SameReceipts, create-SameReceipts,
  rollback-SameReceipts,
}

-- An answer that is not an error is on record under its key.
abbrev Recorded : String → Result OpsError Execution → Map ℕ → Type 0
Recorded key answer receipts =
    (x : Execution) → answer ≡ ok x → (is_key key ≡ true) × (lookup key receipts ≡ some x.address)

module _ {F Body Tick : Type 0} (p : Platform F Body Tick) where
  acknowledge-Retains :
      (t : Clock) (a : ℕ) (d : Decision F) (id key : String) (svc : Service F Body Tick)
      → lookup key svc.idempotency_receipts ≡ none
      → Retains svc (acknowledge p t a d id key svc)
        × (lookup key (acknowledge p t a d id key svc).idempotency_receipts ≡ some a)
  unfolding acknowledge log
  acknowledge-Retains t a d id key svc fresh = (
    (Keeps-insert key a svc.idempotency_receipts fresh, (λ k b h. h)),
    lookup-insert_self key a svc.idempotency_receipts,
  )

  refuse-SameReceipts :
      (t : Clock) (a : ℕ) (d : Decision F) (id reason : String) (svc : Service F Body Tick)
      → SameReceipts svc (refuse p t a d id reason svc)
  unfolding refuse log
  refuse-SameReceipts t a d id reason svc = (refl, refl)

  execute-Recorded :
      (t : Clock) (id key : String) (svc : Service F Body Tick)
      → let (answer, left) = execute_decision p t id key svc in
        Retains svc left × Recorded key answer left.idempotency_receipts
  unfolding execute_decision
  execute-Recorded t id key svc =
      let (answer, left) = execute_decision p t id key svc in
      let unchanged : left ≡ svc → Retains svc left = λ e.
        Retains-same svc left
          (ap (λ s. s.idempotency_receipts) e, ap (λ s. s.core_idempotency_receipts) e) in
      elim (Bool-cases (is_key key)) [
        | inr k ↦ (unchanged (ground (arith, k)), (λ x h. ground (arith, k, h)))
        | inl k ↦ elim (Option-cases (lookup key svc.idempotency_receipts)) [
          | inr (b, l) ↦
              let same : left ≡ svc = ground (arith, k, l) in
              (unchanged same, (λ x h. (k, ground (arith, k, l, h))))
          | inl l ↦ elim (Option-cases (find id svc)) [
            | inl e ↦ (unchanged (ground (arith, k, l, e)), (λ x h. ground (arith, k, l, e, h)))
            | inr ((a, d), e) ↦ elim (Bool-cases (is_approved d.status)) [
              | inr g ↦
                  (unchanged (ground (arith, k, l, e, g)), (λ x h. ground (arith, k, l, e, g, h)))
              | inl g ↦ elim (Option-cases (obstacle p svc.simulator)) [
                | inr ((why, reason), o) ↦
                    let same : execute_decision p t id key svc
                        ≡ (err why, refuse p t a d id reason svc) =
                      ground (arith, k, l, e, g, o) in
                    rw same (
                      Retains-same svc (refuse p t a d id reason svc)
                          (refuse-SameReceipts t a d id reason svc),
                      (λ x h. cc),
                    )
                | inl o ↦
                    let x : Execution = record { address = a; idempotent_replay = false } in
                    let same : execute_decision p t id key svc
                        ≡ (ok x, acknowledge p t a d id key svc) =
                      ground (arith, k, l, e, g, o) in
                    let (kept, there) = acknowledge-Retains t a d id key svc l in
                    rw same (kept, (λ y h. (k, ground (arith, there, h))))
              ]
            ]
          ]
        ]
      ]

  file_receipt-Retains :
      (t : Clock) (plan : CorePlan F) (key : String) (r : CoreReceipt F) (svc : Service F Body Tick)
      → lookup key svc.core_idempotency_receipts ≡ none
      → Retains svc (file_receipt p t plan key r svc)
        × (lookup key (file_receipt p t plan key r svc).core_idempotency_receipts
            ≡ some (length svc.core_heap))
  unfolding file_receipt log
  file_receipt-Retains t plan key r svc fresh =
      let a = length svc.core_heap in
      (
        ((λ k b h. h), Keeps-insert key a svc.core_idempotency_receipts fresh),
        lookup-insert_self key a svc.core_idempotency_receipts,
      )

  perform_core_plan-Recorded :
      (t : Clock) (plan : CorePlan F) (key : String) (svc : Service F Body Tick)
      → is_key key ≡ true
      → lookup key svc.core_idempotency_receipts ≡ none
      → let (answer, left) = perform_core_plan p t plan key svc in
        Retains svc left × Recorded key answer left.core_idempotency_receipts
  unfolding perform_core_plan
  perform_core_plan-Recorded t plan key svc k l =
      let ran =
        apply_core_control_with_counterfactual p.physics p.floats (λ s. s) p.wall_tick_ms
          plan.effect svc.simulator in
      let left = record svc { simulator = ran.1 } in
      elim (Option-cases ran.0) [
        | inl e ↦
            let out : OpsError = core_control_effect_outside_envelope in
            let same : perform_core_plan p t plan key svc ≡ (err out, left) = ground (arith, e) in
            rw same (Retains-same svc left (refl, refl), (λ x h. cc))
        | inr ((baseline, after), e) ↦
            let r = core_receipt p plan key svc.simulator baseline after in
            let x : Execution = record {
              address = length svc.core_heap;
              idempotent_replay = false;
            } in
            let same : perform_core_plan p t plan key svc
                ≡ (ok x, file_receipt p t plan key r left) =
              ground (arith, e) in
            let (kept, there) = file_receipt-Retains t plan key r left l in
            rw same (kept, (λ y h. (k, ground (arith, there, h))))
      ]

  execute_core_plan-Recorded :
      (t : Clock) (plan : CorePlan F) (key : String) (svc : Service F Body Tick)
      → let (answer, left) = execute_core_plan p t plan key svc in
        Retains svc left × Recorded key answer left.core_idempotency_receipts
  unfolding execute_core_plan
  execute_core_plan-Recorded t plan key svc =
      let (answer, left) = execute_core_plan p t plan key svc in
      let shown = snapshot p (t.elapsed 0) svc in
      let unchanged : SameReceipts svc left → Retains svc left = Retains-same svc left in
      elim (Bool-cases (is_key key)) [
        | inr k ↦ (unchanged (ground (arith, k)), (λ x h. ground (arith, k, h)))
        | inl k ↦ elim (Option-cases (lookup key svc.core_idempotency_receipts)) [
          | inr (b, l) ↦
              let same : left ≡ svc = ground (arith, k, l) in
              (unchanged (ground (arith, k, l)), (λ x h. (k, ground (arith, k, l, h))))
          | inl l ↦ elim (Option-cases (plan_obstacle p plan shown.simulator)) [
            | inr (why, o) ↦
                (unchanged (ground (arith, k, l, o)), (λ x h. ground (arith, k, l, o, h)))
            | inl o ↦
                let same : execute_core_plan p t plan key svc
                    ≡ perform_core_plan p t plan key shown =
                  ground (arith, k, l, o) in
                rw same (perform_core_plan-Recorded t plan key shown k l)
          ]
        ]
      ]

  run_call-Retains :
      (t : Clock) (c : Call F) (svc : Service F Body Tick) → Retains svc (run_call p t c svc)
  unfolding run_call control_simulator inject_scenario log
  run_call-Retains t snapshot_call svc = ((λ k a h. h), (λ k a h. h))
  run_call-Retains t (control_simulator_call start) svc = ((λ k a h. h), (λ k a h. h))
  run_call-Retains t (inject_scenario_call scenario) svc = ((λ k a h. h), (λ k a h. h))
  run_call-Retains t (create_decision_call c trained) svc =
      Retains-same svc (create_decision p t c trained svc).1 (create-SameReceipts p t c trained svc)
  run_call-Retains t (approve_decision_call id approvers) svc =
      Retains-same svc (approve_decision p t id approvers svc).1
        (approve-SameReceipts p t id approvers svc)
  run_call-Retains t (execute_decision_call id key) svc = (execute-Recorded t id key svc).0
  run_call-Retains t (rollback_decision_call id reason) svc =
      Retains-same svc (rollback_decision p t id reason svc).1
        (rollback-SameReceipts p t id reason svc).0
  run_call-Retains t (execute_core_plan_call plan key) svc =
      (execute_core_plan-Recorded t plan key svc).0
  run_call-Retains t (rollback_core_plan_call id reason) svc =
      Retains-same svc (rollback_core_plan p t id reason svc).1
        (rollback-SameReceipts p t id reason svc).1

  run_calls-Retains :
      (cs : List (Clock × Call F)) (svc : Service F Body Tick) → Retains svc (run_calls p cs svc)
  unfolding run_calls
  run_calls-Retains [] svc = ((λ k a h. h), (λ k a h. h))
  run_calls-Retains ((t, c) ∷ rest) svc =
      let (first, first_core) = run_call-Retains t c svc in
      let (later, later_core) = run_calls-Retains rest (run_call p t c svc) in
      ((λ k a h. later k a (first k a h)), (λ k a h. later_core k a (first_core k a h)))

  replay :
      (t : Clock) (id key : String) (a : ℕ) (svc : Service F Body Tick)
      → is_key key ≡ true
      → lookup key svc.idempotency_receipts ≡ some a
      → execute_decision p t id key svc
        ≡ (ok (record { address = a; idempotent_replay = true }), svc)
  unfolding execute_decision
  replay t id key a svc k l = ground (arith, k, l)

  core_replay :
      (t : Clock) (plan : CorePlan F) (key : String) (a : ℕ) (svc : Service F Body Tick)
      → is_key key ≡ true
      → lookup key svc.core_idempotency_receipts ≡ some a
      → execute_core_plan p t plan key svc
        ≡ (ok (record { address = a; idempotent_replay = true }), svc)
  unfolding execute_core_plan
  core_replay t plan key a svc k l = ground (arith, k, l)

  -- After `executeDecision` has answered under a key, and after any further calls, the key is answered
  -- with the same decision object, as a replay, whichever decision is named, and nothing changes: the
  -- simulator is not advanced and no record is written.
  pub execute_decision_replayed :
      (t t' : Clock) (id id' key : String) (svc svc' : Service F Body Tick) (x : Execution)
      (cs : List (Clock × Call F))
      → execute_decision p t id key svc ≡ (ok x, svc')
      → let later = run_calls p cs svc' in
        execute_decision p t' id' key later
        ≡ (ok (record { address = x.address; idempotent_replay = true }), later)
  execute_decision_replayed t t' id id' key svc svc' x cs h =
      let (valid, there) = (execute-Recorded t id key svc).1 x (ap (λ r. r.0) h) in
      let there' : lookup key svc'.idempotency_receipts ≡ some x.address =
        ap (λ r. lookup key r.1.idempotency_receipts) (sym h) ∙ there in
      replay t' id' key x.address (run_calls p cs svc') valid
        ((run_calls-Retains cs svc').0 key x.address there')

  -- The same for `executeCorePlan`, whichever plan is sent.
  pub execute_core_plan_replayed :
      (t t' : Clock) (plan plan' : CorePlan F) (key : String) (svc svc' : Service F Body Tick)
      (x : Execution) (cs : List (Clock × Call F))
      → execute_core_plan p t plan key svc ≡ (ok x, svc')
      → let later = run_calls p cs svc' in
        execute_core_plan p t' plan' key later
        ≡ (ok (record { address = x.address; idempotent_replay = true }), later)
  execute_core_plan_replayed t t' plan plan' key svc svc' x cs h =
      let (valid, there) = (execute_core_plan-Recorded t plan key svc).1 x (ap (λ r. r.0) h) in
      let there' : lookup key svc'.core_idempotency_receipts ≡ some x.address =
        ap (λ r. lookup key r.1.core_idempotency_receipts) (sym h) ∙ there in
      core_replay t' plan' key x.address (run_calls p cs svc') valid
        ((run_calls-Retains cs svc').1 key x.address there')
