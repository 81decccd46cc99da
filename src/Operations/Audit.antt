-- ===== src/Operations/Audit.antt =====
-- server/operationalSimulator.ts, `appendAudit` and `auditTrail`: the chain of audit records.
use malacca_port_resilience.Prelude.{
  ℕ, ◌+◌, Bool, true, ◌&&◌, String, List, [], ◌∷◌, ◌++◌, reverse, length, ◌≡◌, refl, arith,
}
use text.Mathlib.Text.{◌==◌}
use text.Mathlib.TextEquality.{eq_iff}
use malacca_port_resilience.Operations.Decisions.{Event, AuditBase, AuditRecord}

-- `'0'.repeat(64)`
abbrev pub genesis : String
genesis = "0000000000000000000000000000000000000000000000000000000000000000"

pub record AuditTrail (F : Type 0) : Type 0 where
  pub verified : Bool
  pub record_count : ℕ
  pub head_hash : String
  pub records : List (AuditRecord F)

module _ {F : Type 0} where
  abbrev pub head_or : String → List (AuditRecord F) → String
  head_or before [] = before
  head_or before (r ∷ rs) = head_or r.hash rs

module _ {F : Type 0} (hash : AuditBase F → String) where
  unfoldable pub append_audit :
      String → String → Event F → List (AuditRecord F) → List (AuditRecord F)
  append_audit now correlation event audit =
      let base : AuditBase F = record {
        sequence = length audit + 1;
        audit_time = now;
        correlation_id = correlation;
        event = event;
        previous_hash = head_or genesis audit;
      } in
      audit ++ record { base = base; hash = hash base } ∷ []

  -- `every`, each record with the hash of the one before it.
  unfoldable pub links : String → List (AuditRecord F) → Bool
  links before [] = true
  links before (r ∷ rs) =
      ((r.base.previous_hash == before) && (hash r.base == r.hash)) && links r.hash rs

  unfoldable pub audit_trail : List (AuditRecord F) → AuditTrail F
  audit_trail audit = record {
    verified = links genesis audit;
    record_count = length audit;
    head_hash = head_or genesis audit;
    records = reverse audit;
  }

  links-append :
      (before : String) (audit : List (AuditRecord F)) (b : AuditBase F)
      → links before audit ≡ true
      → b.previous_hash ≡ head_or before audit
      → links before (audit ++ record { base = b; hash = hash b } ∷ []) ≡ true
  unfolding links
  links-append before [] b h e =
      ground (arith, eq_iff b.previous_hash before, eq_iff (hash b) (hash b))
  links-append before (r ∷ rs) b h e = ground (arith, links-append r.hash rs b (ground arith) e)

  -- A verified trail stays verified when a record is appended.
  pub append_audit-links :
      (now correlation : String) (event : Event F) (audit : List (AuditRecord F))
      → links genesis audit ≡ true
      → links genesis (append_audit now correlation event audit) ≡ true
  unfolding append_audit
  append_audit-links now correlation event audit h = links-append genesis audit _ h refl
