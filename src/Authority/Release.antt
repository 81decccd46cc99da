-- ===== src/Authority/Release.antt =====
-- What a production release that is ready has been through.
pub mod Ready
use text.Mathlib.Text.{◌==◌ as str_eq}
use text.Mathlib.TextEquality.{eq_iff}
use malacca_port_resilience.Prelude.{
  ℕ, zero, suc, ◌+◌, ◌≤◌, ◌<◌, ◌≡◌, ◌≢◌, refl, sym, subst, ap, ◌∙◌, Bool, true, false, not, ◌&&◌,
  ◌||◌, String, Option, none, some, Option-cases, List, [], ◌∷◌, ◌++◌, get_elem?, any, All,
  Bool-cases, inl, inr, arith, raised, Clear, raised-eq-nil_iff, contains, contains-unique, unique,
  unique-eq-nil_iff, append-eq-nil_iff, is_empty_iff, is_empty,
}
use malacca_port_resilience.Authority.{
  DecisionReference, IdentityApproval, InterlockReceipt, ChangeAuthorization, ReleaseBundle,
  GateOptions, GatePlatform, instant, verify_detached, is_stable_id, subjects_with, separated,
  duty_checks, approval_window, approval_claims, approval_binding, approval_blockers,
  interlock_window, interlock_binding, interlock_state, change_window, change_checks,
  decision_checks, release_blockers, release_candidate_ready,
}

any_witness :
    (t : String → Bool) (xs : List String)
    → any t xs ≡ true
    → (a : String) × (contains a xs ≡ true) × (t a ≡ true)
any_witness t [] h = cc
any_witness t (x ∷ xs) h = elim (Bool-cases (t x)) [
  | inl e ↦ (x, ground (arith, eq_iff x x), e)
  | inr e ↦
      let (a, there, holds) = any_witness t xs (ground (arith, e, h)) in
      (a, ground (arith, there), holds)
]

-- An approval with a role, by a subject.
pub record Approves (role subject : String) (approvals : List IdentityApproval) : Type 0 where
  pub index : ℕ
  pub approval : IdentityApproval
  pub there : get_elem? approvals index ≡ some approval
  pub has_role : contains role approval.roles ≡ true
  pub by_subject : approval.subject_id ≡ subject

approves :
    (role subject : String) (approvals : List IdentityApproval)
    → contains subject (subjects_with role approvals) ≡ true
    → Approves role subject approvals
unfolding subjects_with
approves role subject [] h = cc
approves role subject (a ∷ rest) h =
    elim (Bool-cases (contains role a.roles && str_eq a.subject_id subject)) [
      | inl e ↦ record {
        index = 0;
        approval = a;
        there = refl;
        has_role = ground (arith, e);
        by_subject = (eq_iff a.subject_id subject).0 (ground (arith, e));
      }
      | inr e ↦
          let later = approves role subject rest (ground (arith, e, h)) in
          record {
            index = suc later.index;
            approval = later.approval;
            there = later.there;
            has_role = later.has_role;
            by_subject = later.by_subject;
          }
    ]

-- An operator and a safety officer who are not the same person.
pub record TwoPeople (approvals : List IdentityApproval) : Type 0 where
  pub operator : String
  pub safety_officer : String
  pub different : operator ≢ safety_officer
  pub operator_approves : Approves "OPERATOR" operator approvals
  pub safety_approves : Approves "SAFETY_OFFICER" safety_officer approvals

pub two_people :
    (approvals : List IdentityApproval) → separated approvals ≡ true → TwoPeople approvals
two_people approvals h =
    let operators = subjects_with "OPERATOR" approvals in
    let officers = subjects_with "SAFETY_OFFICER" approvals in
    let (o, o_there, o_holds) =
      any_witness (λ o. any (λ s. not (str_eq s o)) (unique officers)) (unique operators) h in
    let (s, s_there, s_differs) = any_witness (λ s. not (str_eq s o)) (unique officers) o_holds in
    record {
      operator = o;
      safety_officer = s;
      different = λ e. ground (arith, s_differs, (eq_iff s o).1 (sym e));
      operator_approves =
          approves "OPERATOR" o approvals (sym (contains-unique o operators) ∙ o_there);
      safety_approves =
          approves "SAFETY_OFFICER" s approvals (sym (contains-unique s officers) ∙ s_there);
    }

module _ {Bytes : Type 0} (p : GatePlatform Bytes) where
  -- A time that parses, with its value.
  abbrev pub At : String → ℕ → Type 0
  At value t = instant p value ≡ some t

  -- An approval that is signed by a trusted key for this gate, by a person with strong authentication
  -- who did not make the decision, for this decision, and is in its ten minutes.
  pub record IsBinding (o : GateOptions) (d : DecisionReference) (now : ℕ) (a : IdentityApproval)
      : Type 0 where
    pub signed :
        verify_detached p o.identity_trust_bundle a.key_id (p.approval_bytes a) a.signature ≡ true
    pub audience : a.audience ≡ o.audience
    pub human : a.subject_type ≡ "HUMAN"
    pub strong : a.mfa ≡ true
    pub for_decision : a.decision_id ≡ d.decision_id
    pub for_digest : a.decision_digest ≡ d.decision_digest
    pub for_snapshot : a.input_snapshot_hash ≡ d.input_snapshot_hash
    pub for_action : a.action_id ≡ d.action_id
    pub not_creator : a.subject_id ≢ d.creator_subject_id
    pub issued : ℕ
    pub expires : ℕ
    pub issued_at : At a.issued_at issued
    pub expires_at : At a.expires_at expires
    pub not_early : issued ≤ now + 30000
    pub not_expired : now < expires
    pub short_lived : expires ≤ issued + 600000

  in_window :
      (now : ℕ) (prefix : String) (a : IdentityApproval)
      → approval_window p now prefix a ≡ []
      → (i : ℕ) × (x : ℕ) × At a.issued_at i
        × At a.expires_at x
        × (i ≤ now + 30000)
        × (now < x)
        × (x ≤ i + 600000)
  in_window now prefix a h = elim (Option-cases (instant p a.issued_at)) [
    | inl e ↦ ground (arith, e, h)
    | inr (i, e) ↦ elim (Option-cases (instant p a.expires_at)) [
      | inl g ↦ ground (arith, e, g, h)
      | inr (x, g) ↦
          (i, x, e, g, ground (arith, e, g, h), ground (arith, e, g, h), ground (arith, e, g, h))
    ]
  ]

  pub binding :
      (o : GateOptions) (d : DecisionReference) (now : ℕ) (prefix : String) (a : IdentityApproval)
      → Clear (approval_claims p o prefix a)
      → approval_window p now prefix a ≡ []
      → Clear (approval_binding p d prefix a)
      → IsBinding o d now a
  binding o d now prefix a (protocol, (signed, (audience, (human, (strong, _))))) w
        (bound, (creator, _)) =
      let (i, x, at, until, early, expired, short) = in_window now prefix a w in
      record {
        signed = ground (arith, signed);
        audience = (eq_iff a.audience o.audience).0 (ground (arith, audience));
        human = (eq_iff a.subject_type "HUMAN").0 (ground (arith, human));
        strong = ground (arith, strong);
        for_decision = (eq_iff a.decision_id d.decision_id).0 (ground (arith, bound));
        for_digest = (eq_iff a.decision_digest d.decision_digest).0 (ground (arith, bound));
        for_snapshot =
            (eq_iff a.input_snapshot_hash d.input_snapshot_hash).0 (ground (arith, bound));
        for_action = (eq_iff a.action_id d.action_id).0 (ground (arith, bound));
        not_creator = λ e. ground (arith, creator, (eq_iff a.subject_id d.creator_subject_id).1 e);
        issued = i;
        expires = x;
        issued_at = at;
        expires_at = until;
        not_early = early;
        not_expired = expired;
        short_lived = short;
      }
