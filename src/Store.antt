-- ===== src/Store.antt =====
-- server/reliableStateStore.ts, `DurableStateStore`: the generations of a state in two files, and a
-- journal of hash-chained records. `commit` is a plan, made from what it reads, and the effects that
-- it then has on the disk, one after the other.
pub mod Journal
pub mod Commit
pub mod Crash
pub mod History
mod Examples
use malacca_port_resilience.Prelude.{
  ℕ, ◌+◌, ◌*◌, false, Bool, not, ◌||◌, String, Option, none, some, List, [], ◌∷◌, ◌++◌, ltb, ◌==◌,
  if◌then◌else◌, Result, ok, err, is_some, is_empty, is_hex, is_id_char, matches, ◌≡◌, true,
}
use text.Mathlib.Text.{◌==◌ as str_eq}
use Journal.{
  JournalBase, JournalRecord, JournalError, JournalPlatform, JournalPlatformLaws, Verified, sealed,
  verify_journal, JournalFile, in_file, append_line,
}

pub record Unsigned (T : Type 0) : Type 0 where
  pub protocol_version : String
  pub store_id : String
  pub generation : ℕ
  pub committed_at : String
  pub previous_state_sha256 : Option String
  pub payload_sha256 : String
  pub payload : T

pub record StateEnvelope (T : Type 0) : Type 0 where
  pub unsigned : Unsigned T
  pub open unsigned use *
  pub envelope_sha256 : String

-- `/^[a-f0-9]{64}$/` and `/^[A-Za-z0-9._:-]{2,120}$/`
abbrev pub is_sha256 : String → Bool
is_sha256 = matches is_hex 64 64

abbrev pub is_stable_id : String → Bool
is_stable_id = matches is_id_char 2 120

-- The digests `sha256(canonicalJson(x))`, the length of the payload's JSON in bytes, and JSON itself.
pub record Platform (Text T : Type 0) : Type 0 where
  pub journal : JournalPlatform Text
  pub hash_payload : T → String
  pub payload_bytes : T → ℕ
  pub hash_unsigned : Unsigned T → String
  pub print_envelope : StateEnvelope T → Text
  pub parse_json : Text → Result String (StateEnvelope T)

pub record PlatformLaws {Text T : Type 0} (p : Platform Text T) : Type 0 where
  pub journal_laws : JournalPlatformLaws p.journal
  pub hash_payload_hex : (t : T) → is_sha256 (p.hash_payload t) ≡ true
  pub hash_unsigned_hex : (u : Unsigned T) → is_sha256 (p.hash_unsigned u) ≡ true
  pub parse-print : (e : StateEnvelope T) → p.parse_json (p.print_envelope e) ≡ ok e

-- `state.json`, `state.previous.json` and `journal.jsonl`, each if it exists.
pub record Disk (Text : Type 0) : Type 0 where
  pub primary : Option Text
  pub previous : Option Text
  pub journal_file : Option (JournalFile Text)

pub data Source : Type 0 where
  primary_file previous_file : Source

pub record Loaded (T : Type 0) : Type 0 where
  pub found : Option (Source × StateEnvelope T)
  pub recovery_errors : List (Source × String)

pub data StoreError : Type 0 where
  state_directory_must_be_absolute store_id_invalid : StoreError
  state_payload_too_large state_recovery_required_before_commit : StoreError
  state_generation_conflict : StoreError
  journal_integrity_failed : List JournalError → StoreError

pub record Store : Type 0 where
  pub store_id : String
  pub maximum_payload_bytes : ℕ

abbrev or_default : Option ℕ → ℕ → ℕ
or_default none d = d
or_default (some n) d = n

-- The constructor; `absolute` is `path.isAbsolute(options.directory)`.
pub new_store : Bool → String → Option ℕ → Result StoreError Store
new_store absolute id maximum =
    if not absolute
    then err state_directory_must_be_absolute
    else if not (is_stable_id id)
    then err store_id_invalid
    else ok (record { store_id = id; maximum_payload_bytes = or_default maximum (8 * 1048576) })

abbrev pub state_version : String
state_version = "durable-state-envelope.v1"

pub record RecoveryCheck : Type 0 where
  pub protocol_version : String
  pub checked_at : String
  pub state_recoverable : Bool
  pub recovered_from : Option Source
  pub generation : ℕ
  pub recovery_errors : List (Source × String)
  pub journal : Verified
  pub raw_restore_payload_released : Bool

abbrev pub generation_of : {T : Type 0} → Option (Source × StateEnvelope T) → ℕ
generation_of none = 0
generation_of (some (source, e)) = e.generation

abbrev pub digest_of : {T : Type 0} → Option (Source × StateEnvelope T) → Option String
digest_of none = none
digest_of (some (source, e)) = some e.envelope_sha256

abbrev pub is_stale : Option ℕ → ℕ → Bool
is_stale none generation = false
is_stale (some expected) generation = not (expected == generation)

module _ {Text T : Type 0} (p : Platform Text T) where
  pub check_envelope : String → StateEnvelope T → Result String (StateEnvelope T)
  check_envelope id e =
      if not (str_eq e.protocol_version state_version)
        || (not (str_eq e.store_id id)
            || (ltb e.generation 1
                || (not (is_sha256 e.payload_sha256) || not (is_sha256 e.envelope_sha256))))
      then err "state_envelope_invalid"
      else if not (str_eq (p.hash_payload e.payload) e.payload_sha256)
      then err "state_payload_digest_mismatch"
      else if not (str_eq (p.hash_unsigned e.unsigned) e.envelope_sha256)
      then err "state_envelope_digest_mismatch"
      else ok e

  -- `parseEnvelope`
  pub parse_envelope : String → Text → Result String (StateEnvelope T)
  parse_envelope id body = elim (p.parse_json body) [
    | ok e ↦ check_envelope id e
    | err message ↦ err message
  ]

  -- The loop over the two files, from one of them on.
  load_files : String → List (Source × Option Text) → List (Source × String) → Loaded T
  load_files id [] errors = record { found = none; recovery_errors = errors }
  load_files id ((source, none) ∷ rest) errors = load_files id rest errors
  load_files id ((source, some body) ∷ rest) errors = elim (parse_envelope id body) [
    | ok e ↦ record { found = some (source, e); recovery_errors = errors }
    | err message ↦ load_files id rest (errors ++ (source, message) ∷ [])
  ]

  pub load : Store → Disk Text → Loaded T
  load s d = load_files s.store_id ((primary_file, d.primary) ∷ (previous_file, d.previous) ∷ []) []

  pub next_unsigned : Store → String → T → Option (Source × StateEnvelope T) → Unsigned T
  next_unsigned s now payload current = record {
    protocol_version = state_version;
    store_id = s.store_id;
    generation = generation_of current + 1;
    committed_at = now;
    previous_state_sha256 = digest_of current;
    payload_sha256 = p.hash_payload payload;
    payload = payload;
  }

  pub next_base : StateEnvelope T → Verified → JournalBase
  next_base e journal = record {
    protocol_version = "durable-state-journal.v1";
    sequence = journal.record_count + 1;
    generation = e.generation;
    committed_at = e.committed_at;
    state_sha256 = e.envelope_sha256;
    previous_journal_hash = journal.head_hash;
  }

  -- `commit` up to its first effect: the envelope and the journal's record, or the error thrown.
  -- `now` is `clock().toISOString()`.
  pub plan :
      Store
      → T
      → Option ℕ
      → String
      → Disk Text
      → Result StoreError (StateEnvelope T × JournalRecord)
  plan s payload expected now d =
      let current = load s d in
      let journal = verify_journal p.journal d.journal_file in
      let unsigned = next_unsigned s now payload current.found in
      let e : StateEnvelope T = record {
        unsigned = unsigned;
        envelope_sha256 = p.hash_unsigned unsigned;
      } in
      if ltb s.maximum_payload_bytes (p.payload_bytes payload)
      then err state_payload_too_large
      else if not (is_empty current.recovery_errors)
      then err state_recovery_required_before_commit
      else if is_stale expected (generation_of current.found)
      then err state_generation_conflict
      else if not journal.verified
      then err (journal_integrity_failed journal.errors)
      else ok (e, sealed p.journal (next_base e journal))

  -- `if (existsSync(primaryFile)) copyFileSync(primaryFile, previousFile)`
  pub save_previous : Disk Text → Disk Text
  save_previous d = elim d.primary [ none ↦ d | some body ↦ record d { previous = some body } ]

  -- `atomicWrite(primaryFile, …)`: the file is replaced by a rename.
  pub replace_primary : StateEnvelope T → Disk Text → Disk Text
  replace_primary e d = record d { primary = some (p.print_envelope e) }

  -- `appendFileSync(journalFile, …)`
  pub append_journal : JournalRecord → Disk Text → Disk Text
  append_journal r d = record d {
    journal_file = some (append_line p.journal (p.journal.print_record r) (in_file d.journal_file));
  }

  pub effects : StateEnvelope T × JournalRecord → Disk Text → Disk Text
  unfolding save_previous replace_primary append_journal
  effects (e, r) d = append_journal r (replace_primary e (save_previous d))

  pub commit :
      Store → T → Option ℕ → String → Disk Text → Result StoreError (StateEnvelope T × Disk Text)
  commit s payload expected now d = elim (plan s payload expected now d) [
    | err e ↦ err e
    | ok (e, r) ↦ ok (e, effects (e, r) d)
  ]

  pub disaster_recovery_check : Store → String → Disk Text → RecoveryCheck
  disaster_recovery_check s now d =
      let loaded = load s d in
      record {
        protocol_version = "durable-state-recovery-check.v1";
        checked_at = now;
        state_recoverable = is_some loaded.found;
        recovered_from = elim loaded.found [ none ↦ none | some (source, e) ↦ some source ];
        generation = generation_of loaded.found;
        recovery_errors = loaded.recovery_errors;
        journal = verify_journal p.journal d.journal_file;
        raw_restore_payload_released = false;
      }
