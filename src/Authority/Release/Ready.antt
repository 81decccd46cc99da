-- ===== src/Authority/Release/Ready.antt =====
-- The gate's verdict as a whole.
use Prim.Native.String.{◌++◌ as ◌++ˢ◌}
use text.Mathlib.TextEquality.{eq_iff}
use malacca_port_resilience.Prelude.{
  ℕ, zero, suc, ◌+◌, ◌≤◌, ◌≡◌, subst, true, false, some, Option-cases, List, [], ◌∷◌, get_elem?,
  inl, inr, arith, raised, Clear, raised-eq-nil_iff, unique, unique-eq-nil_iff, append-eq-nil_iff,
  is_empty_iff, length, ltb,
}
use malacca_port_resilience.Authority.{
  DecisionReference, IdentityApproval, InterlockReceipt, ChangeAuthorization, ReleaseBundle,
  GateOptions, GatePlatform, instant, verify_detached, duty_checks, approval_window,
  approval_claims, approval_binding, approval_blockers, interlock_window, interlock_binding,
  interlock_state, change_window, decision_checks, release_blockers, release_candidate_ready,
}
use malacca_port_resilience.Authority.Release.{At, IsBinding, binding, TwoPeople, two_people}

module _ {Bytes : Type 0} (p : GatePlatform Bytes) where
  -- A receipt of the interlock for this site and this decision, at most half a minute old, that clears
  -- the release.
  pub record IsClear (o : GateOptions) (d : DecisionReference) (now : ℕ) (r : InterlockReceipt)
      : Type 0 where
    pub signed :
        verify_detached p o.interlock_trust_bundle r.key_id (p.interlock_bytes r) r.signature ≡ true
    pub site : r.site_id ≡ o.accepted_site_id
    pub for_decision : r.decision_id ≡ d.decision_id
    pub for_digest : r.decision_digest ≡ d.decision_digest
    pub safe_to_proceed : r.safe_to_proceed ≡ true
    pub emergency_stop_clear : r.emergency_stop_clear ≡ true
    pub no_bypass : r.maintenance_bypass_active ≡ false
    pub observed : ℕ
    pub observed_at : At p r.observed_at observed
    pub fresh : now ≤ observed + 30000
    pub not_future : observed ≤ now + 5000

  -- The window of the change is open and at most eight hours long.
  pub record IsOpen (now : ℕ) (c : ChangeAuthorization) : Type 0 where
    pub start : ℕ
    pub stop : ℕ
    pub starts_at : At p c.approved_window_start start
    pub stops_at : At p c.approved_window_end stop
    pub started : start ≤ now
    pub not_over : now ≤ stop
    pub bounded : stop ≤ start + 28800000

  IsClear-of :
      (o : GateOptions) (d : DecisionReference) (now : ℕ) (r : InterlockReceipt)
      → Clear (interlock_binding p o d r)
      → interlock_window p now r ≡ []
      → Clear (interlock_state p r)
      → IsClear o d now r
  IsClear-of o d now r (protocol, (signed, (site, (bound, _)))) w (state, _) =
      elim (Option-cases (instant p r.observed_at)) [
        | inl e ↦ ground (arith, e, w)
        | inr (t, e) ↦ elim (Option-cases (instant p r.expires_at)) [
          | inl g ↦ ground (arith, e, g, w)
          | inr (x, g) ↦ record {
            signed = ground (arith, signed);
            site = (eq_iff r.site_id o.accepted_site_id).0 (ground (arith, site));
            for_decision = (eq_iff r.decision_id d.decision_id).0 (ground (arith, bound));
            for_digest = (eq_iff r.decision_digest d.decision_digest).0 (ground (arith, bound));
            safe_to_proceed = ground (arith, state);
            emergency_stop_clear = ground (arith, state);
            no_bypass = ground (arith, state);
            observed = t;
            observed_at = e;
            fresh = ground (arith, e, g, w);
            not_future = ground (arith, e, g, w);
          }
        ]
      ]

  IsOpen-of : (now : ℕ) (c : ChangeAuthorization) → change_window p now c ≡ [] → IsOpen now c
  IsOpen-of now c w = elim (Option-cases (instant p c.approved_window_start)) [
    | inl e ↦ ground (arith, e, w)
    | inr (t, e) ↦ elim (Option-cases (instant p c.approved_window_end)) [
      | inl g ↦ ground (arith, e, g, w)
      | inr (x, g) ↦ record {
        start = t;
        stop = x;
        starts_at = e;
        stops_at = g;
        started = ground (arith, e, g, w);
        not_over = ground (arith, e, g, w);
        bounded = ground (arith, e, g, w);
      }
    ]
  ]

  all-IsBinding :
      (o : GateOptions) (d : DecisionReference) (now n : ℕ) (xs : List IdentityApproval) (i : ℕ)
      (a : IdentityApproval)
      → approval_blockers p o d now n xs ≡ []
      → get_elem? xs i ≡ some a
      → IsBinding p o d now a
  unfolding approval_blockers
  all-IsBinding o d now n [] i a h there = cc
  all-IsBinding o d now n (x ∷ xs) i a h there =
      let prefix = "approval_" ++ˢ p.decimal_text n in
      let (claims, h1) = (append-eq-nil_iff (raised (approval_claims p o prefix x)) _).0 h in
      let (window, h2) = (append-eq-nil_iff (approval_window p now prefix x) _).0 h1 in
      let (bound, rest) = (append-eq-nil_iff (raised (approval_binding p d prefix x)) _).0 h2 in
      elim i as (λ i. get_elem? (x ∷ xs) i ≡ some a → IsBinding p o d now a) [
        | zero ↦ λ at.
            let same : x ≡ a = cc in
            subst (IsBinding p o d now) same (
              binding p o d now prefix x
                ((raised-eq-nil_iff (approval_claims p o prefix x)).0 claims) window
                ((raised-eq-nil_iff (approval_binding p d prefix x)).0 bound))
        | suc j ↦ λ at. all-IsBinding o d now (suc n) xs j a rest at
      ]
        there

  -- What a release went through before the gate let it pass.
  pub record IsReleasable (b : ReleaseBundle) (o : GateOptions) (now : ℕ) : Type 0 where
    pub every_approval :
        (i : ℕ) (a : IdentityApproval)
        → get_elem? b.approvals i ≡ some a
        → IsBinding p o b.decision now a
    pub two_people : TwoPeople b.approvals
    pub interlock : IsClear o b.decision now b.interlock
    pub window : IsOpen now b.change

  -- A release candidate is ready only if every approval of the bundle is signed, fresh, by a person
  -- other than the decision's creator and bound to this very decision; an operator and a different
  -- safety officer are among the approvers; the interlock's receipt is signed, at most 30 seconds old
  -- and clears this decision at the accepted site; and the change's window is open.
  pub release_candidate_ready_only_if :
      (b : ReleaseBundle) (o : GateOptions) (now : ℕ)
      → release_candidate_ready p b o now ≡ true
      → IsReleasable b o now
  unfolding release_candidate_ready release_blockers
  release_candidate_ready_only_if b o now h =
      let r0 =
        (unique-eq-nil_iff (release_blockers p b o now)).0
          ((is_empty_iff (unique (release_blockers p b o now))).0 h) in
      let (decision, r1) = (append-eq-nil_iff (raised (decision_checks b.decision)) _).0 r0 in
      let dual = raised ((ltb (length b.approvals) 2, "dual_approval_missing") ∷ []) in
      let (_, r2) = (append-eq-nil_iff dual _).0 r1 in
      let (approvals, r3) =
        (append-eq-nil_iff (approval_blockers p o b.decision now 0 b.approvals) _).0 r2 in
      let (duty, r4) = (append-eq-nil_iff (raised (duty_checks b.approvals)) _).0 r3 in
      let (bound, r5) =
        (append-eq-nil_iff (raised (interlock_binding p o b.decision b.interlock)) _).0 r4 in
      let (fresh, r6) = (append-eq-nil_iff (interlock_window p now b.interlock) _).0 r5 in
      let (state, r7) = (append-eq-nil_iff (raised (interlock_state p b.interlock)) _).0 r6 in
      let (window, _) = (append-eq-nil_iff (change_window p now b.change) _).0 r7 in
      let duties = (raised-eq-nil_iff (duty_checks b.approvals)).0 duty in
      record {
        every_approval =
            λ i a there. all-IsBinding o b.decision now 0 b.approvals i a approvals there;
        two_people = two_people b.approvals (ground (arith, duties.1.1.0));
        interlock =
            IsClear-of o b.decision now b.interlock
              ((raised-eq-nil_iff (interlock_binding p o b.decision b.interlock)).0 bound) fresh
              ((raised-eq-nil_iff (interlock_state p b.interlock)).0 state);
        window = IsOpen-of now b.change window;
      }
