-- ===== src/Authority/Bundle.antt =====
-- server/productionAuthorityGate.ts: what a production release is asked for with.
use malacca_port_resilience.Prelude.{
  ℕ, ◌+◌, Bool, true, false, not, ◌&&◌, ◌||◌, String, Option, none, some, List, [], ◌∷◌, ◌==◌,
  if◌then◌else◌, codes, is_digit, is_upper, Map, lookup,
}
use text.Mathlib.Text.{◌==◌ as str_eq}

pub record DecisionReference : Type 0 where
  pub decision_id : String
  pub creator_subject_id : String
  pub decision_digest : String
  pub input_snapshot_hash : String
  pub action_id : String
  pub risk_tier : String

pub record IdentityApproval : Type 0 where
  pub protocol_version : String
  pub assertion_id : String
  pub key_id : String
  pub issuer : String
  pub audience : String
  pub subject_id : String
  pub subject_type : String
  pub organization_id : String
  pub roles : List String
  pub session_id : String
  pub mfa : Bool
  pub assurance_level : String
  pub decision_id : String
  pub decision_digest : String
  pub input_snapshot_hash : String
  pub action_id : String
  pub issued_at : String
  pub expires_at : String
  pub signature : String

pub record InterlockReceipt : Type 0 where
  pub protocol_version : String
  pub receipt_id : String
  pub key_id : String
  pub issuer : String
  pub site_id : String
  pub decision_id : String
  pub decision_digest : String
  pub input_snapshot_hash : String
  pub safe_to_proceed : Bool
  pub emergency_stop_clear : Bool
  pub communications_healthy : Bool
  pub maintenance_bypass_active : Bool
  pub observed_at : String
  pub expires_at : String
  pub signature : String

pub record ChangeAuthorization : Type 0 where
  pub change_ticket_id : String
  pub approved_window_start : String
  pub approved_window_end : String
  pub site_acceptance_reference : String
  pub rollback_plan_reference : String
  pub independent_safety_validation_reference : String

pub record ReleaseBundle : Type 0 where
  pub decision : DecisionReference
  pub approvals : List IdentityApproval
  pub interlock : InterlockReceipt
  pub change : ChangeAuthorization

pub record GateOptions : Type 0 where
  pub identity_trust_bundle : Map String
  pub interlock_trust_bundle : Map String
  pub audience : String
  pub accepted_site_id : String
  pub accepted_site_reference : String

-- The signed bytes of an approval and of a receipt, `crypto.verify` (false where it throws) on a public
-- key, bytes and a signature, `Date.parse` (`none` for NaN) and a number's text.
pub record GatePlatform (Bytes : Type 0) : Type 0 where
  pub approval_bytes : IdentityApproval → Bytes
  pub interlock_bytes : InterlockReceipt → Bytes
  pub verify : String → Bytes → String → Bool
  pub parse_date : String → Option ℕ
  pub decimal_text : ℕ → String

-- `/(?:Z|[+-]\d{2}:\d{2})$/`
abbrev is_offset : List ℕ → Bool
is_offset (s ∷ a ∷ b ∷ colon ∷ c ∷ d ∷ []) =
    (s == b'+' || s == b'-')
    && (is_digit a && (is_digit b && (colon == b':' && (is_digit c && is_digit d))))
is_offset _ = false

unfoldable pub ends_with_offset : List ℕ → Bool
ends_with_offset [] = false
ends_with_offset (c ∷ []) = c == b'Z'
ends_with_offset (c ∷ d ∷ rest) = is_offset (c ∷ d ∷ rest) || ends_with_offset (d ∷ rest)

module _ {Bytes : Type 0} (p : GatePlatform Bytes) where
  -- `Date.parse(value)` where `validTime(value)`.
  unfoldable pub instant : String → Option ℕ
  instant value = if ends_with_offset (codes value) then p.parse_date value else none

  -- `verifyDetached`; an empty key counts as missing.
  unfoldable pub verify_detached : Map String → String → Bytes → String → Bool
  verify_detached trust key_id bytes signature = elim (lookup key_id trust) [
    | none ↦ false
    | some key ↦ not (str_eq key "") && p.verify key bytes signature
  ]

-- `/(?:example|...)/i`
abbrev lower : ℕ → ℕ
lower c = if is_upper c then c + 32 else c

abbrev starts_with : List ℕ → List ℕ → Bool
starts_with [] cs = true
starts_with (w ∷ ws) [] = false
starts_with (w ∷ ws) (c ∷ cs) = w == lower c && starts_with ws cs

abbrev mentions : List ℕ → List ℕ → Bool
mentions word [] = false
mentions word (c ∷ cs) = starts_with word (c ∷ cs) || mentions word cs

abbrev pub any_word : List String → List ℕ → Bool
any_word [] text = false
any_word (w ∷ ws) text = mentions (codes w) text || any_word ws text

unfoldable pub is_placeholder : String → Bool
is_placeholder value =
    any_word
      ("example" ∷ "replace" ∷ "pending" ∷ "placeholder" ∷ "todo" ∷ "tbd" ∷ "test-only" ∷ "待填写"
        ∷ "待确认" ∷ [])
      (codes value)
