-- ===== src/Operations/Lifecycle/Calls.antt =====
-- Every call keeps the decisions sound, and moves each of them only forward.
use malacca_port_resilience.Prelude.{
  ℕ, suc, ◌≡◌, refl, ap, true, ◌&&◌, ◌⊎◌, Option, some, List, [], ◌∷◌, ◌++◌, map, get_elem?, set,
  Option-cases, Bool-cases, Result-cases, inl, inr, arith, lookup, String,
}
use malacca_port_resilience.Simulator.{Action}
use malacca_port_resilience.Operations.{
  DecisionStatus, pending_approval, approved, executed, failed, acknowledged, Decision, Receipt,
  Approver, Controller, Platform, Clock, Service, is_dual, is_pending, is_approved, is_executed,
  stamp, find, log, snapshot, create_decision, new_decision, approve_decision, execute_decision,
  acknowledge, refuse, obstacle, rollback_decision, revert, or_default, hold, recommendations,
  find_controller, gate, is_key,
}
use malacca_port_resilience.Operations.Lifecycle.{IsSound}

pub approvers-stamp :
    (iso : ℕ → String) (i : ℕ) (approvers : List Approver)
    → map (λ a. a.approver) (stamp iso i approvers) ≡ approvers
unfolding stamp
approvers-stamp iso i [] = refl
approvers-stamp iso i (a ∷ rest) = ap (λ r. a ∷ r) (approvers-stamp iso (suc i) rest)

pub pending : (s : DecisionStatus) → is_pending s ≡ true → s ≡ pending_approval
pending pending_approval h = refl
pending _ h = cc

pub at_approved : (s : DecisionStatus) → is_approved s ≡ true → s ≡ approved
at_approved approved h = refl
at_approved _ h = cc

pub at_executed : (s : DecisionStatus) → is_executed s ≡ true → s ≡ executed
at_executed executed h = refl
at_executed _ h = cc

module _ {F Body Tick : Type 0} where
  pub get-find :
      (id : String) (svc : Service F Body Tick) (a : ℕ) (d : Decision F)
      → find id svc ≡ some (a, d)
      → get_elem? svc.heap a ≡ some d
  unfolding find
  get-find id svc a d h = elim (Option-cases (lookup id svc.decisions)) [
    | inl e ↦ ground (arith, e)
    | inr (b, e) ↦ elim (Option-cases (get_elem? svc.heap b)) [
      | inl g ↦ ground (arith, e, g)
      | inr (c, g) ↦ ground (arith, e, g)
    ]
  ]

  -- How an execution that goes past the guards leaves a decision: failed, or executed.
  abbrev pub Settled : Service F Body Tick → ℕ → Decision F → List (Decision F) → Type 0
  Settled svc a d heap =
      (heap ≡ set svc.heap a (record d { status = failed }))
      ⊎ ((r : Receipt F) × (r.status ≡ acknowledged)
          × (heap ≡ set svc.heap a (record d { status = executed; receipt = some r })))

  module _ (p : Platform F Body Tick) where
    pub approve_cases :
        (t : Clock) (id : String) (approvers : List Approver) (svc : Service F Body Tick)
        → ((approve_decision p t id approvers svc).1.heap ≡ svc.heap)
          ⊎ ((a : ℕ) × (d : Decision F) × (find id svc ≡ some (a, d))
              × (is_pending d.status ≡ true)
              × (is_dual approvers ≡ true)
              × ((approve_decision p t id approvers svc).1.heap
                  ≡ set svc.heap a
                      (record d { approvals = stamp t.iso 0 approvers; status = approved })))
    unfolding approve_decision log
    approve_cases t id approvers svc = elim (Option-cases (find id svc)) [
      | inl e ↦ inl (ground (arith, e))
      | inr ((a, d), e) ↦ elim (Bool-cases (is_pending d.status && is_dual approvers)) [
        | inr h ↦ inl (ground (arith, e, h))
        | inl h ↦ inr (a, d, e, ground (arith, h), ground (arith, h), ground (arith, e, h))
      ]
    ]

    pub create_cases :
        (t : Clock) (c : Controller) (trained : Option Action) (svc : Service F Body Tick)
        → ((create_decision p t c trained svc).1.heap ≡ svc.heap)
          ⊎ ((d : Decision F) × IsSound d
              × ((create_decision p t c trained svc).1.heap ≡ svc.heap ++ d ∷ []))
    unfolding create_decision log new_decision
    create_cases t c trained svc =
        let shown = snapshot p (t.elapsed 0) svc in
        let offered =
          recommendations p.floats p.round (gate p shown.simulator) (p.kpis shown.simulator)
            trained in
        elim (Result-cases offered) [
          | inr (e, h) ↦ inl (ground (arith, h))
          | inl (candidates, h) ↦ elim (Option-cases (find_controller c candidates)) [
            | inl g ↦ inl (ground (arith, h, g))
            | inr (chosen, g) ↦ elim (Bool-cases chosen.eligible) [
              | inr e ↦ inl (ground (arith, h, g, e))
              | inl e ↦ inr (new_decision p t c chosen shown, (refl, refl), ground (arith, h, g, e))
            ]
          ]
        ]

    acknowledge_heap :
        (t : Clock) (a : ℕ) (d : Decision F) (id key : String) (svc : Service F Body Tick)
        → Settled svc a d (acknowledge p t a d id key svc).heap
    unfolding acknowledge log
    acknowledge_heap t a d id key svc = inr (_, refl, refl)

    pub execute_cases :
        (t : Clock) (id key : String) (svc : Service F Body Tick)
        → ((execute_decision p t id key svc).1.heap ≡ svc.heap)
          ⊎ ((a : ℕ) × (d : Decision F) × (find id svc ≡ some (a, d))
              × (is_approved d.status ≡ true)
              × Settled svc a d (execute_decision p t id key svc).1.heap)
    unfolding execute_decision refuse log
    execute_cases t id key svc = elim (Bool-cases (is_key key)) [
      | inr k ↦ inl (ground (arith, k))
      | inl k ↦ elim (Option-cases (lookup key svc.idempotency_receipts)) [
        | inr (b, l) ↦ inl (ground (arith, k, l))
        | inl l ↦ elim (Option-cases (find id svc)) [
          | inl e ↦ inl (ground (arith, k, l, e))
          | inr ((a, d), e) ↦ elim (Bool-cases (is_approved d.status)) [
            | inr h ↦ inl (ground (arith, k, l, e, h))
            | inl h ↦ inr (
              a,
              d,
              e,
              h,
              elim (Option-cases (obstacle p svc.simulator)) [
                | inr (why, o) ↦ inl (ground (arith, k, l, e, h, o))
                | inl o ↦
                    let same : (execute_decision p t id key svc).1
                        ≡ acknowledge p t a d id key svc =
                      ground (arith, k, l, e, h, o) in
                    rw same (acknowledge_heap t a d id key svc)
              ],
            )
          ]
        ]
      ]
    ]

    pub rollback_cases :
        (t : Clock) (id reason : String) (svc : Service F Body Tick)
        → ((rollback_decision p t id reason svc).1.heap ≡ svc.heap)
          ⊎ ((a : ℕ) × (d : Decision F) × (r : Receipt F) × (find id svc ≡ some (a, d))
              × (is_executed d.status ≡ true)
              × ((rollback_decision p t id reason svc).1.heap
                  ≡ set svc.heap a (revert d r (or_default reason))))
    unfolding rollback_decision hold log
    rollback_cases t id reason svc = elim (Option-cases (find id svc)) [
      | inl e ↦ inl (ground (arith, e))
      | inr ((a, d), e) ↦ elim (Option-cases d.receipt) [
        | inl n ↦ inl (ground (arith, e, n))
        | inr (r, n) ↦ elim (Bool-cases (is_executed d.status)) [
          | inr h ↦ inl (ground (arith, e, n, h))
          | inl h ↦ inr (a, d, r, e, h, ground (arith, e, n, h))
        ]
      ]
    ]
