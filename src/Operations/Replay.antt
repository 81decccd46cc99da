-- ===== src/Operations/Replay.antt =====
-- What the control service answers to a repeated idempotency key.
pub mod Keys
use text.Mathlib.Text.{◌==◌}
use text.Mathlib.TextEquality.{eq_iff}
use malacca_port_resilience.Prelude.{
  ℕ, zero, suc, ◌≡◌, refl, sym, subst, ap, ◌∙◌, Bool, true, false, not, ◌&&◌, ◌⊎◌, Option, none,
  some, List, [], ◌∷◌, ◌++◌, length, Option-cases, Bool-cases, Result-cases, Result, ok, err, inl,
  inr, arith, lookup, insert, lookup-insert, lookup-insert_self, String, Map,
}
use malacca_port_resilience.Simulator.{Action, Scenario, apply_core_control_with_counterfactual}
use malacca_port_resilience.Operations.{
  OpsError, Execution, Decision, Receipt, CoreReceipt, Approver, Controller, Platform, Clock,
  Service, Call, snapshot_call, control_simulator_call, inject_scenario_call, create_decision_call,
  approve_decision_call, execute_decision_call, rollback_decision_call, execute_core_plan_call,
  rollback_core_plan_call, is_dual, is_pending, is_approved, is_executed, is_acknowledged, stamp,
  find, find_core, run_call, run_calls, log, snapshot, control_simulator, inject_scenario,
  create_decision, new_decision, store, gate, recommendations, find_controller, approve_decision,
  execute_decision, acknowledge, refuse, obstacle, rollback_decision, or_default, hold,
  execute_core_plan, perform_core_plan, file_receipt, core_receipt, rollback_core_plan, CorePlan,
  plan_obstacle, is_key,
}

-- A map of receipts after a call: what it had, it has.
abbrev pub Keeps : Map ℕ → Map ℕ → Type 0
Keeps m m' = (key : String) (a : ℕ) → lookup key m ≡ some a → lookup key m' ≡ some a

pub Keeps-insert :
    (key : String) (a : ℕ) (m : Map ℕ) → lookup key m ≡ none → Keeps m (insert key a m)
Keeps-insert key a m fresh k b h = elim (Bool-cases (key == k)) [
  | inl e ↦
      let same : key ≡ k = (eq_iff key k).0 e in
      let missing : lookup k m ≡ none = subst (λ x. lookup x m ≡ none) same fresh in cc
  | inr e ↦ ground (arith, lookup-insert k key a m, e, h)
]

module _ {F Body Tick : Type 0} where
  -- Both maps of receipts.
  abbrev pub Retains : Service F Body Tick → Service F Body Tick → Type 0
  Retains svc svc' =
      Keeps svc.idempotency_receipts svc'.idempotency_receipts
      × Keeps svc.core_idempotency_receipts svc'.core_idempotency_receipts

  abbrev pub SameReceipts : Service F Body Tick → Service F Body Tick → Type 0
  SameReceipts svc svc' =
      (svc'.idempotency_receipts ≡ svc.idempotency_receipts)
      × (svc'.core_idempotency_receipts ≡ svc.core_idempotency_receipts)

  pub Retains-same : (svc svc' : Service F Body Tick) → SameReceipts svc svc' → Retains svc svc'
  Retains-same svc svc' (e, e') =
      ((λ key a h. ap (lookup key) e ∙ h), (λ key a h. ap (lookup key) e' ∙ h))

  module _ (p : Platform F Body Tick) where
    pub approve-SameReceipts :
        (t : Clock) (id : String) (approvers : List Approver) (svc : Service F Body Tick)
        → SameReceipts svc (approve_decision p t id approvers svc).1
    unfolding approve_decision log
    approve-SameReceipts t id approvers svc = elim (Option-cases (find id svc)) [
      | inl e ↦ ground (arith, e)
      | inr (r, e) ↦ ground (arith, e)
    ]

    pub create-SameReceipts :
        (t : Clock) (c : Controller) (trained : Option Action) (svc : Service F Body Tick)
        → SameReceipts svc (create_decision p t c trained svc).1
    unfolding create_decision log
    create-SameReceipts t c trained svc =
        let shown = snapshot p (t.elapsed 0) svc in
        let offered =
          recommendations p.floats p.round (gate p shown.simulator) (p.kpis shown.simulator)
            trained in
        elim (Result-cases offered) [
          | inr (e, h) ↦ ground (arith, h)
          | inl (candidates, h) ↦ elim (Option-cases (find_controller c candidates)) [
            | inl g ↦ ground (arith, h, g)
            | inr (chosen, g) ↦ ground (arith, h, g)
          ]
        ]

    pub rollback-SameReceipts :
        (t : Clock) (id reason : String) (svc : Service F Body Tick)
        → SameReceipts svc (rollback_decision p t id reason svc).1
          × SameReceipts svc (rollback_core_plan p t id reason svc).1
    unfolding rollback_decision rollback_core_plan hold log
    rollback-SameReceipts t id reason svc = (
      elim (Option-cases (find id svc)) [
        | inl e ↦ ground (arith, e)
        | inr ((a, d), e) ↦ elim (Option-cases d.receipt) [
          | inl n ↦ ground (arith, e, n)
          | inr (r, n) ↦ ground (arith, e, n)
        ]
      ],
      elim (Option-cases (find_core id svc)) [
        | inl e ↦ ground (arith, e)
        | inr (r, e) ↦ ground (arith, e)
      ],
    )
