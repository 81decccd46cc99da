-- ===== src/Operations/State.antt =====
-- server/operationalSimulator.ts, `OperationalControlService`: its state, its clock, and the operations
-- on the simulator. The decisions map and the receipts map hold the same objects, so they hold
-- addresses of a heap here.
use Prim.Native.String.{◌++◌ as ◌++ˢ◌}
use malacca_port_resilience.Prelude.{
  ℕ, Bool, true, false, ◌||◌, String, Option, none, some, List, get_elem?, set, ◌==◌, if◌then◌else◌,
  Floats, Map, lookup, is_alnum, matches,
}
use text.Mathlib.Text.{◌==◌ as str_eq}
use malacca_port_resilience.Simulator.{
  Scenario, data_loss, CoreEffect, Physics, Simulator, Status, advance, set_running, set_scenario,
  status,
}
use malacca_port_resilience.Operations.Decisions.{
  DecisionStatus, pending_approval, approved, executed, ReceiptStatus, acknowledged, reverted, Kpis,
  Decision, CoreReceipt, Event, simulator_control, scenario_injected, AuditBase, AuditRecord,
}
use malacca_port_resilience.Operations.Audit.{append_audit}

-- What the service takes from elsewhere: numbers and their rounding, the physics and what a snapshot
-- shows of a simulator, and the hashes.
pub record Platform (F Body Tick : Type 0) : Type 0 where
  pub floats : Floats F
  pub round : F → ℕ → F
  pub physics : Physics F Body Tick
  pub wall_tick_ms : ℕ
  pub kpis : Simulator F Body Tick → Kpis F
  pub completeness_percent : Simulator F Body Tick → F
  pub communication_available : Simulator F Body Tick → Bool
  pub field : Simulator F Body Tick → String → String → F
  pub snapshot_hash : Simulator F Body Tick → String
  pub correlation_id : Simulator F Body Tick → String
  pub event_time : Tick → String
  -- A number's text, the first sixteen digits of `hash(left:middle:right)` or `hash(left:right)`, and `hash(key)`.
  pub decimal_text : ℕ → String
  pub short_hash : List String → String
  pub key_hash : String → String
  pub record_hash : AuditBase F → String

-- The successive readings of the clock during a call: milliseconds since the simulator's start, and
-- `new Date().toISOString()`.
pub record Clock : Type 0 where
  pub elapsed : ℕ → ℕ
  pub iso : ℕ → String

pub record Service (F Body Tick : Type 0) : Type 0 where
  pub simulator : Simulator F Body Tick
  pub heap : List (Decision F)
  pub decisions : Map ℕ
  pub idempotency_receipts : Map ℕ
  pub core_heap : List (CoreReceipt F)
  pub core_idempotency_receipts : Map ℕ
  pub core_receipts_by_proposal : Map ℕ
  pub audit : List (AuditRecord F)

-- The object that a call returns, by its address, and `idempotent_replay`.
pub record Execution : Type 0 where
  pub address : ℕ
  pub idempotent_replay : Bool

pub record CorePlan (F : Type 0) : Type 0 where
  pub proposal_id : String
  pub input_snapshot_hash : String
  pub input_sequence : ℕ
  pub plan_hash : String
  pub active_domains : List String
  pub effect : CoreEffect F

abbrev pub is_pending : DecisionStatus → Bool
is_pending pending_approval = true
is_pending _ = false

abbrev pub is_approved : DecisionStatus → Bool
is_approved approved = true
is_approved _ = false

abbrev pub is_executed : DecisionStatus → Bool
is_executed executed = true
is_executed _ = false

abbrev pub is_acknowledged : ReceiptStatus → Bool
is_acknowledged acknowledged = true
is_acknowledged reverted = false

abbrev pub is_data_loss : Scenario → Bool
is_data_loss data_loss = true
is_data_loss _ = false

-- `[a-zA-Z0-9._-]{8,120}`
abbrev pub is_key : String → Bool
is_key key = matches (λ c. is_alnum c || (c == b'.' || (c == b'_' || c == b'-'))) 8 120 key

abbrev pub or_default : String → String
or_default reason = if str_eq reason "" then "operator_requested_rollback" else reason

module _ {F Body Tick : Type 0} where
  -- What a map's address refers to, with the address.
  unfoldable pub find : String → Service F Body Tick → Option (ℕ × Decision F)
  find id svc = elim (lookup id svc.decisions) [
    | none ↦ none
    | some a ↦ elim (get_elem? svc.heap a) [ none ↦ none | some d ↦ some (a, d) ]
  ]

  unfoldable pub find_core : String → Service F Body Tick → Option (ℕ × CoreReceipt F)
  find_core id svc = elim (lookup id svc.core_receipts_by_proposal) [
    | none ↦ none
    | some a ↦ elim (get_elem? svc.core_heap a) [ none ↦ none | some r ↦ some (a, r) ]
  ]

  abbrev pub write : ℕ → Decision F → Service F Body Tick → Service F Body Tick
  write a d svc = record svc { heap = set svc.heap a d }

module _ {F Body Tick : Type 0} (p : Platform F Body Tick) where
  unfoldable pub log : String → String → Event F → Service F Body Tick → Service F Body Tick
  log now correlation event svc = record svc {
    audit = append_audit p.record_hash now correlation event svc.audit;
  }

  -- `snapshot(Date.now())`
  abbrev pub snapshot : ℕ → Service F Body Tick → Service F Body Tick
  snapshot elapsed svc = record svc {
    simulator = advance p.physics p.wall_tick_ms elapsed svc.simulator;
  }

  unfoldable pub control_simulator :
      Clock → Bool → Service F Body Tick → Status × Service F Body Tick
  control_simulator t start svc =
      let sim = set_running p.physics start svc.simulator in
      let shown = status p.physics sim in
      (
        shown,
        log (t.iso 0) ("simulator-" ++ˢ p.decimal_text shown.sequence)
            (simulator_control shown.running shown.scenario shown.sequence)
            (record svc { simulator = sim }),
      )

  unfoldable pub inject_scenario : Clock → Scenario → Service F Body Tick → Service F Body Tick
  inject_scenario t scenario svc =
      let shown =
        snapshot (t.elapsed 0)
          (record svc { simulator = set_scenario p.physics scenario svc.simulator }) in
      log (t.iso 0) (p.correlation_id shown.simulator)
        (scenario_injected scenario (p.snapshot_hash shown.simulator)) shown
