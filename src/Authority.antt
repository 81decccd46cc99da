-- ===== src/Authority.antt =====
-- server/productionAuthorityGate.ts: the gate in front of a production release.
mod Bundle
pub mod Release
mod Examples
unfoldable pub use Bundle.*
use Prim.Native.String.{◌++◌ as ◌++ˢ◌}
use malacca_port_resilience.Prelude.{
  ℕ, suc, ◌+◌, Bool, true, false, not, ◌&&◌, ◌||◌, String, Option, none, some, List, [], ◌∷◌, ◌++◌,
  map, length, any, ltb, leb, raised, contains, unique, is_empty, is_hex, is_path_id_char, matches,
  if◌then◌else◌,
}
use text.Mathlib.Text.{◌==◌ as str_eq}

abbrev pub is_sha256 : String → Bool
is_sha256 = matches is_hex 64 64

abbrev pub is_stable_id : String → Bool
is_stable_id = matches is_path_id_char 2 180

abbrev known_roles : List String
known_roles = "OPERATOR" ∷ "SAFETY_OFFICER" ∷ "RELEASE_MANAGER" ∷ "AUDITOR" ∷ []

-- `validateDecision`
abbrev pub decision_checks : DecisionReference → List (Bool × String)
decision_checks d =
    (not (is_stable_id d.decision_id), "decision_decisionID_invalid")
    ∷ (not (is_stable_id d.creator_subject_id), "decision_creatorSubjectID_invalid")
    ∷ (not (is_stable_id d.action_id), "decision_actionID_invalid")
    ∷ (not (is_sha256 d.decision_digest), "decision_digest_invalid")
    ∷ (not (is_sha256 d.input_snapshot_hash), "input_snapshot_hash_invalid")
    ∷ (
      not (contains d.risk_tier ("MEDIUM" ∷ "HIGH" ∷ "CRITICAL" ∷ [])),
      "decision_risk_tier_invalid",
    )
    ∷ []

-- The subjects of the approvals with a role.
unfoldable pub subjects_with : String → List IdentityApproval → List String
subjects_with role [] = []
subjects_with role (a ∷ rest) =
    let others = subjects_with role rest in
    if contains role a.roles then a.subject_id ∷ others else others

abbrev all_roles : List IdentityApproval → List String
all_roles [] = []
all_roles (a ∷ rest) = a.roles ++ all_roles rest

abbrev pub separated : List IdentityApproval → Bool
separated approvals =
    any (λ o. any (λ s. not (str_eq s o)) (unique (subjects_with "SAFETY_OFFICER" approvals)))
      (unique (subjects_with "OPERATOR" approvals))

abbrev pub duty_checks : List IdentityApproval → List (Bool × String)
duty_checks approvals =
    let subjects = unique (map (λ a. a.subject_id) approvals) in
    let sessions = unique (map (λ a. a.session_id) approvals) in
    (ltb (length subjects) 2 || ltb (length sessions) 2, "separation_of_duties_failed")
    ∷ (
      not (contains "OPERATOR" (all_roles approvals))
          || not (contains "SAFETY_OFFICER" (all_roles approvals)),
      "operator_and_safety_roles_required",
    )
    ∷ (not (separated approvals), "required_roles_not_separated")
    ∷ []

module _ {Bytes : Type 0} (p : GatePlatform Bytes) where
  abbrev pub approval_window : ℕ → String → IdentityApproval → List String
  approval_window now prefix a = elim (instant p a.issued_at) [
    | none ↦ (prefix ++ˢ "_time_invalid") ∷ []
    | some issued ↦ elim (instant p a.expires_at) [
      | none ↦ (prefix ++ˢ "_time_invalid") ∷ []
      | some expires ↦
          if ltb (now + 30000) issued || (leb expires now || ltb (issued + 600000) expires)
          then (prefix ++ˢ "_time_window_invalid") ∷ []
          else []
    ]
  ]

  abbrev pub approval_claims : GateOptions → String → IdentityApproval → List (Bool × String)
  approval_claims o prefix a =
      let signed =
        verify_detached p o.identity_trust_bundle a.key_id (p.approval_bytes a) a.signature in
      (not (str_eq a.protocol_version "identity-bound-approval.v1"), prefix ++ˢ "_protocol_invalid")
      ∷ (not signed, prefix ++ˢ "_signature_invalid")
      ∷ (not (str_eq a.audience o.audience), prefix ++ˢ "_audience_invalid")
      ∷ (not (str_eq a.subject_type "HUMAN"), prefix ++ˢ "_human_subject_required")
      ∷ (
        not a.mfa || not (contains a.assurance_level ("AAL2" ∷ "AAL3" ∷ [])),
        prefix ++ˢ "_strong_auth_required",
      )
      ∷ []

  abbrev pub approval_binding : DecisionReference → String → IdentityApproval → List (Bool × String)
  approval_binding d prefix a =
      (
        not (str_eq a.decision_id d.decision_id)
            || (not (str_eq a.decision_digest d.decision_digest)
                || (not (str_eq a.input_snapshot_hash d.input_snapshot_hash)
                    || not (str_eq a.action_id d.action_id))),
        prefix ++ˢ "_decision_binding_invalid",
      )
      ∷ (str_eq a.subject_id d.creator_subject_id, prefix ++ˢ "_creator_cannot_approve")
      ∷ (
        not (is_stable_id a.subject_id)
            || (not (is_stable_id a.session_id) || not (is_stable_id a.organization_id)),
        prefix ++ˢ "_identity_invalid",
      )
      ∷ (
        not (is_stable_id a.assertion_id)
            || (not (is_stable_id a.key_id)
                || (is_empty a.roles || any (λ r. not (contains r known_roles)) a.roles)),
        prefix ++ˢ "_claims_invalid",
      )
      ∷ []

  unfoldable pub approval_blockers :
      GateOptions → DecisionReference → ℕ → ℕ → List IdentityApproval → List String
  approval_blockers o d now i [] = []
  approval_blockers o d now i (a ∷ rest) =
      let prefix = "approval_" ++ˢ p.decimal_text i in
      raised (approval_claims o prefix a)
      ++ (approval_window now prefix a
          ++ (raised (approval_binding d prefix a) ++ approval_blockers o d now (suc i) rest))

  abbrev pub interlock_window : ℕ → InterlockReceipt → List String
  interlock_window now r = elim (instant p r.observed_at) [
    | none ↦ "interlock_time_invalid" ∷ []
    | some observed ↦ elim (instant p r.expires_at) [
      | none ↦ "interlock_time_invalid" ∷ []
      | some expires ↦
          if ltb (now + 5000) observed
            || (ltb (observed + 30000) now || (leb expires now || ltb (observed + 60000) expires))
          then "interlock_freshness_invalid" ∷ []
          else []
    ]
  ]

  abbrev pub interlock_binding :
      GateOptions → DecisionReference → InterlockReceipt → List (Bool × String)
  interlock_binding o d r =
      let signed =
        verify_detached p o.interlock_trust_bundle r.key_id (p.interlock_bytes r) r.signature in
      (not (str_eq r.protocol_version "independent-ot-interlock.v1"), "interlock_protocol_invalid")
      ∷ (not signed, "interlock_signature_invalid")
      ∷ (not (str_eq r.site_id o.accepted_site_id), "interlock_site_invalid")
      ∷ (
        not (str_eq r.decision_id d.decision_id)
            || (not (str_eq r.decision_digest d.decision_digest)
                || not (str_eq r.input_snapshot_hash d.input_snapshot_hash)),
        "interlock_decision_binding_invalid",
      )
      ∷ []

  abbrev pub interlock_state : InterlockReceipt → List (Bool × String)
  interlock_state r =
      (
        not r.safe_to_proceed
            || (not r.emergency_stop_clear
                || (not r.communications_healthy || r.maintenance_bypass_active)),
        "independent_ot_interlock_blocked",
      )
      ∷ []

  abbrev pub change_window : ℕ → ChangeAuthorization → List String
  change_window now c = elim (instant p c.approved_window_start) [
    | none ↦ "approved_change_window_closed" ∷ []
    | some start ↦ elim (instant p c.approved_window_end) [
      | none ↦ "approved_change_window_closed" ∷ []
      | some end_ ↦
          if ltb now start || ltb end_ now
          then "approved_change_window_closed" ∷ []
          else if ltb (start + 28800000) end_
          then "approved_change_window_too_long" ∷ []
          else []
    ]
  ]

  abbrev is_reference : String → Bool
  is_reference value = is_stable_id value && not (is_placeholder value)

  abbrev pub change_checks : GateOptions → ChangeAuthorization → List (Bool × String)
  change_checks o c =
      (not (is_reference c.change_ticket_id), "changeTicketID_invalid")
      ∷ (not (is_reference c.site_acceptance_reference), "siteAcceptanceReference_invalid")
      ∷ (not (is_reference c.rollback_plan_reference), "rollbackPlanReference_invalid")
      ∷ (
        not (is_reference c.independent_safety_validation_reference),
        "independentSafetyValidationReference_invalid",
      )
      ∷ (
        not (str_eq c.site_acceptance_reference o.accepted_site_reference),
        "site_acceptance_reference_mismatch",
      )
      ∷ []

  -- The blockers of `evaluateProductionRelease`, with those of the approvals, of the separation of
  -- duties, of the interlock and of the change one after the other; `now` in milliseconds.
  unfoldable pub release_blockers : ReleaseBundle → GateOptions → ℕ → List String
  release_blockers b o now =
      raised (decision_checks b.decision)
      ++ (raised ((ltb (length b.approvals) 2, "dual_approval_missing") ∷ [])
          ++ (approval_blockers o b.decision now 0 b.approvals
              ++ (raised (duty_checks b.approvals)
                  ++ (raised (interlock_binding o b.decision b.interlock)
                      ++ (interlock_window now b.interlock
                          ++ (raised (interlock_state b.interlock)
                              ++ (change_window now b.change
                                  ++ raised (change_checks o b.change))))))))

  unfoldable pub release_candidate_ready : ReleaseBundle → GateOptions → ℕ → Bool
  release_candidate_ready b o now = is_empty (unique (release_blockers b o now))
