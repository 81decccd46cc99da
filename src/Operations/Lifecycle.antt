-- ===== src/Operations/Lifecycle.antt =====
-- The life of a decision in the control service: what every call leaves true of every decision.
mod Calls
pub mod Runs
use malacca_port_resilience.Prelude.{
  ℕ, zero, suc, ◌≡◌, refl, sym, subst, ap, ◌∙◌, Bool, true, false, not, Option, none, some, List,
  [], ◌∷◌, ◌++◌, map, length, get_elem?, set, All, Option-cases, Bool-cases, Result-cases, Result,
  ok, err, inl, inr, arith, Map, lookup, String,
}
use malacca_port_resilience.Simulator.{Action, Scenario}
use malacca_port_resilience.Operations.{
  DecisionStatus, pending_approval, approved, executed, rolled_back, failed, ReceiptStatus,
  acknowledged, reverted, Decision, Receipt, Approval, Approver, Controller, Platform, Clock,
  Service, Call, is_dual, stamp, find, run_call, run_calls, log, snapshot, control_simulator,
  inject_scenario, create_decision, new_decision, approve_decision, execute_decision, acknowledge,
  refuse, obstacle, rollback_decision, revert, hold, execute_core_plan, perform_core_plan,
  file_receipt, rollback_core_plan, CorePlan,
}

module _ {F : Type 0} where
  abbrev HasReceipt : ReceiptStatus → Option (Receipt F) → Type 0
  HasReceipt s none = ⊥
  HasReceipt s (some r) = r.status ≡ s

  -- What a decision's status says of its approvals and its receipt.
  abbrev pub Holds : DecisionStatus → List Approval → Option (Receipt F) → Type 0
  Holds pending_approval approvals receipt = (approvals ≡ []) × (receipt ≡ none)
  Holds approved approvals receipt =
      (is_dual (map (λ a. a.approver) approvals) ≡ true) × (receipt ≡ none)
  Holds executed approvals receipt =
      (is_dual (map (λ a. a.approver) approvals) ≡ true) × HasReceipt acknowledged receipt
  Holds rolled_back approvals receipt =
      (is_dual (map (λ a. a.approver) approvals) ≡ true) × HasReceipt reverted receipt
  Holds failed approvals receipt =
      (is_dual (map (λ a. a.approver) approvals) ≡ true) × (receipt ≡ none)

  -- A decision that is past approval was approved by two different people in the two roles, and it has
  -- a receipt exactly if it was executed.
  abbrev pub IsSound : Decision F → Type 0
  IsSound d = Holds d.status d.approvals d.receipt

-- The statuses that one can turn into.
abbrev pub may_become : DecisionStatus → DecisionStatus → Bool
may_become pending_approval s = true
may_become approved pending_approval = false
may_become approved s = true
may_become executed executed = true
may_become executed rolled_back = true
may_become executed s = false
may_become rolled_back rolled_back = true
may_become rolled_back s = false
may_become failed failed = true
may_become failed s = false

may_become_refl : (s : DecisionStatus) → may_become s s ≡ true
may_become_refl pending_approval = refl
may_become_refl approved = refl
may_become_refl executed = refl
may_become_refl rolled_back = refl
may_become_refl failed = refl

may_become_trans :
    (a b c : DecisionStatus) → may_become a b ≡ true → may_become b c ≡ true → may_become a c ≡ true
may_become_trans pending_approval b c h g = refl
may_become_trans approved pending_approval c h g = cc
may_become_trans approved approved c h g = g
may_become_trans approved executed executed h g = refl
may_become_trans approved executed rolled_back h g = refl
may_become_trans approved executed _ h g = cc
may_become_trans approved rolled_back rolled_back h g = refl
may_become_trans approved rolled_back _ h g = cc
may_become_trans approved failed failed h g = refl
may_become_trans approved failed _ h g = cc
may_become_trans executed executed c h g = g
may_become_trans executed rolled_back rolled_back h g = refl
may_become_trans executed rolled_back _ h g = cc
may_become_trans executed _ c h g = cc
may_become_trans rolled_back rolled_back c h g = g
may_become_trans rolled_back _ c h g = cc
may_become_trans failed failed c h g = g
may_become_trans failed _ c h g = cc

-- A later state of the same decision: what was decided is unchanged.
pub record Follows {F : Type 0} (d d' : Decision F) : Type 0 where
  pub same_id : d'.decision_id ≡ d.decision_id
  pub same_input : d'.input_snapshot_hash ≡ d.input_snapshot_hash
  pub same_action : d'.recommended_action ≡ d.recommended_action
  pub same_projection : d'.projected_action ≡ d.projected_action
  pub status_follows : may_become d.status d'.status ≡ true

module _ {F : Type 0} where
  Follows-refl : (d : Decision F) → Follows d d
  Follows-refl d = record {
    same_id = refl;
    same_input = refl;
    same_action = refl;
    same_projection = refl;
    status_follows = may_become_refl d.status;
  }

  Follows-trans : (a b c : Decision F) → Follows a b → Follows b c → Follows a c
  Follows-trans a b c f g = record {
    same_id = g.same_id ∙ f.same_id;
    same_input = g.same_input ∙ f.same_input;
    same_action = g.same_action ∙ f.same_action;
    same_projection = g.same_projection ∙ f.same_projection;
    status_follows = may_become_trans a.status b.status c.status f.status_follows g.status_follows;
  }

  -- Every object of the first heap has a later state at its address in the second.
  abbrev pub Evolves : List (Decision F) → List (Decision F) → Type 0
  Evolves [] ys = Unit
  Evolves (x ∷ xs) [] = ⊥
  Evolves (x ∷ xs) (y ∷ ys) = Follows x y × Evolves xs ys

  Evolves-refl : (xs : List (Decision F)) → Evolves xs xs
  Evolves-refl [] = tt
  Evolves-refl (x ∷ xs) = (Follows-refl x, Evolves-refl xs)

  pub Evolves-trans : (xs ys zs : List (Decision F)) → Evolves xs ys → Evolves ys zs → Evolves xs zs
  Evolves-trans [] ys zs f g = tt
  Evolves-trans (x ∷ xs) [] zs f g = elim f [ ]
  Evolves-trans (x ∷ xs) (y ∷ ys) [] f g = elim g [ ]
  Evolves-trans (x ∷ xs) (y ∷ ys) (z ∷ zs) f g =
      (Follows-trans x y z f.0 g.0, Evolves-trans xs ys zs f.1 g.1)

  -- A heap after a call: sound if it was sound, and evolved.
  abbrev pub Kept : List (Decision F) → List (Decision F) → Type 0
  Kept xs ys = (All IsSound xs → All IsSound ys) × Evolves xs ys

  pub Kept-refl : (xs : List (Decision F)) → Kept xs xs
  Kept-refl xs = ((λ h. h), Evolves-refl xs)

  pub Kept-by : (xs ys zs : List (Decision F)) → zs ≡ ys → Kept xs ys → Kept xs zs
  Kept-by xs ys zs e k = subst (λ h. Kept xs h) (sym e) k

  pub Kept-append : (xs : List (Decision F)) (d : Decision F) → IsSound d → Kept xs (xs ++ d ∷ [])
  Kept-append [] d v = ((λ _. (v, tt)), tt)
  Kept-append (x ∷ xs) d v =
      let (sound, evolves) = Kept-append xs d v in
      ((λ h. (h.0, sound h.1)), (Follows-refl x, evolves))

  pub Kept-set :
      (xs : List (Decision F)) (a : ℕ) (d d' : Decision F)
      → get_elem? xs a ≡ some d
      → (IsSound d → IsSound d')
      → Follows d d'
      → Kept xs (set xs a d')
  Kept-set [] a d d' h v f = cc
  Kept-set (x ∷ xs) zero d d' h v f =
      let same : x ≡ d = cc in
      (
        (λ s. (v (subst IsSound same s.0), s.1)),
        (subst (λ y. Follows y d') (sym same) f, Evolves-refl xs),
      )
  Kept-set (x ∷ xs) (suc a) d d' h v f =
      let (sound, evolves) = Kept-set xs a d d' h v f in
      ((λ s. (s.0, sound s.1)), (Follows-refl x, evolves))
