-- ===== src/Authority/Examples.antt =====
-- A release that passes the gate, with dates read as the length of their text.
use malacca_port_resilience.Prelude.{
  ◌≡◌, refl, true, false, String, some, [], ◌∷◌, length, codes, lookup, matches, unique, without,
}
use malacca_port_resilience.Authority.{
  DecisionReference, IdentityApproval, ReleaseBundle, GateOptions, GatePlatform, instant,
  ends_with_offset, verify_detached, is_placeholder, subjects_with, approval_blockers,
  release_blockers, release_candidate_ready,
}
use malacca_port_resilience.Authority.Release.Ready.{IsReleasable, release_candidate_ready_only_if}

abbrev digest : String
digest = "0123456789abcdef0123456789abcdef0123456789abcdef0123456789abcdef"

abbrev soon : String
soon = "xxxxxxxxxxxxxxxxZ"

abbrev platform : GatePlatform String
platform = record {
  approval_bytes = λ a. a.assertion_id;
  interlock_bytes = λ r. r.receipt_id;
  verify = λ key bytes signature. true;
  parse_date = λ s. some (length (codes s));
  decimal_text = λ n. "n";
}

abbrev options : GateOptions
options = record {
  identity_trust_bundle = ("key-1", "pem") ∷ [];
  interlock_trust_bundle = ("key-2", "pem") ∷ [];
  audience = "port";
  accepted_site_id = "site-1";
  accepted_site_reference = "acceptance-1";
}

abbrev decision : DecisionReference
decision = record {
  decision_id = "decision-1";
  creator_subject_id = "planner-1";
  decision_digest = digest;
  input_snapshot_hash = digest;
  action_id = "eco-speed";
  risk_tier = "HIGH";
}

abbrev approval : String → String → String → IdentityApproval
approval subject role session = record {
  protocol_version = "identity-bound-approval.v1";
  assertion_id = "assertion-1";
  key_id = "key-1";
  issuer = "idp-1";
  audience = "port";
  subject_id = subject;
  subject_type = "HUMAN";
  organization_id = "port-1";
  roles = role ∷ [];
  session_id = session;
  mfa = true;
  assurance_level = "AAL2";
  decision_id = "decision-1";
  decision_digest = digest;
  input_snapshot_hash = digest;
  action_id = "eco-speed";
  issued_at = "Z";
  expires_at = soon;
  signature = "s";
}

abbrev bundle : ReleaseBundle
bundle = record {
  decision = decision;
  approvals =
      approval "ops-1" "OPERATOR" "session-1"
      ∷ approval "safety-1" "SAFETY_OFFICER" "session-2"
      ∷ [];
  interlock = record {
    protocol_version = "independent-ot-interlock.v1";
    receipt_id = "receipt-1";
    key_id = "key-2";
    issuer = "plc-1";
    site_id = "site-1";
    decision_id = "decision-1";
    decision_digest = digest;
    input_snapshot_hash = digest;
    safe_to_proceed = true;
    emergency_stop_clear = true;
    communications_healthy = true;
    maintenance_bypass_active = false;
    observed_at = "Z";
    expires_at = soon;
    signature = "s";
  };
  change = record {
    change_ticket_id = "ticket-1";
    approved_window_start = "Z";
    approved_window_end = soon;
    site_acceptance_reference = "acceptance-1";
    rollback_plan_reference = "rollback-1";
    independent_safety_validation_reference = "validation-1";
  };
}

ready : release_candidate_ready platform bundle options 10 ≡ true
unfolding release_candidate_ready release_blockers approval_blockers matches instant
    ends_with_offset verify_detached lookup is_placeholder subjects_with unique without
ready = refl

release_candidate_ready_only_if_example : IsReleasable platform bundle options 10
release_candidate_ready_only_if_example =
    release_candidate_ready_only_if platform bundle options 10 ready
