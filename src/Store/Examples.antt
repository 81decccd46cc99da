-- ===== src/Store/Examples.antt =====
-- A small platform whose files hold the documents themselves, and the store's theorems on it.
use malacca_port_resilience.Prelude.{
  ℕ, ◌≡◌, refl, ◌⊎◌, Bool, true, String, Option, none, some, List, [], ◌∷◌, false, ◌==◌, map, ◌++◌,
  get_elem?, Result, ok, err, arith, matches,
}
use malacca_port_resilience.Store.Journal.{
  JournalFile, JournalRecord, JournalPlatform, genesis_hash, in_file, lines_of, not_null,
  append_line, verify_journal, verified_of, parse_lines, chain_errors, chain_head, breaks_chain,
  sealed,
}
use malacca_port_resilience.Store.Journal.Laws.{Chain, verify_journal_iff}
use malacca_port_resilience.Store.Commit.{load-commit}
use malacca_port_resilience.Store.History.{commit_iff, commit_lost_update, here, next, Commits-grow}
use malacca_port_resilience.Store.Crash.{copying, load-Interrupted, load-damaged}
use malacca_port_resilience.Store.{
  StateEnvelope, is_sha256, Platform, PlatformLaws, Disk, primary_file, previous_file, Store,
  StoreError, state_generation_conflict, load, load_files, parse_envelope, check_envelope, commit,
  plan, effects, next_unsigned, next_base, replace_primary, save_previous, append_journal,
  generation_of,
}

-- What a file or a line of a file holds.
data Document : Type 0 where
  state : StateEnvelope ℕ → Document
  entry : JournalRecord → Document
  null : Document
  torn : Document

abbrev digest_a : String
digest_a = "aaaaaaaaaaaaaaaaaaaaaaaaaaaaaaaaaaaaaaaaaaaaaaaaaaaaaaaaaaaaaaaa"

abbrev digest_b : String
digest_b = "bbbbbbbbbbbbbbbbbbbbbbbbbbbbbbbbbbbbbbbbbbbbbbbbbbbbbbbbbbbbbbbb"

abbrev pick : Bool → String
pick true = digest_a
pick false = digest_b

abbrev digest : ℕ → String
digest n = pick (n == 1)

abbrev to_record : Document → Option (Option JournalRecord)
to_record (state e) = none
to_record (entry r) = some (some r)
to_record null = some none
to_record torn = none

abbrev to_state : Document → Result String (StateEnvelope ℕ)
to_state (state e) = ok e
to_state (entry r) = err "Unexpected token"
to_state null = err "state_envelope_invalid"
to_state torn = err "Unexpected token"

abbrev lines_platform : JournalPlatform Document
lines_platform = record {
  hash_base = λ b. digest b.sequence;
  print_record = entry;
  parse_record = to_record;
  join = λ a b. torn;
}

abbrev platform : Platform Document ℕ
platform = record {
  journal = lines_platform;
  hash_payload = digest;
  payload_bytes = λ n. n;
  hash_unsigned = λ u. digest u.generation;
  print_envelope = state;
  parse_json = to_state;
}

pick_hex : (b : Bool) → is_sha256 (pick b) ≡ true
unfolding matches
pick_hex true = refl
pick_hex false = refl

digest_hex : (n : ℕ) → is_sha256 (digest n) ≡ true
digest_hex n = pick_hex (n == 1)

platform-PlatformLaws : PlatformLaws platform
platform-PlatformLaws = record {
  journal_laws = record { parse-print_record = λ r. refl };
  hash_payload_hex = digest_hex;
  hash_unsigned_hex = λ u. digest_hex u.generation;
  parse-print = λ e. refl;
}

abbrev store : Store
store = record { store_id = "port"; maximum_payload_bytes = 100 }

abbrev empty_disk : Disk Document
empty_disk = record { primary = none; previous = none; journal_file = none }

abbrev Written : Type 0
Written = StateEnvelope ℕ × Disk Document

-- What a commit returns, or a value that no commit returns.
abbrev written : Result StoreError Written → Written
written (ok w) = w
written (err x) = (
  record {
    unsigned = record {
      protocol_version = "";
      store_id = "";
      generation = 0;
      committed_at = "";
      previous_state_sha256 = none;
      payload_sha256 = "";
      payload = 0;
    };
    envelope_sha256 = "";
  },
  empty_disk,
)

abbrev first : Written
first = written (commit platform store 7 none "t1" empty_disk)

abbrev second : Written
second = written (commit platform store 9 (some 1) "t2" first.1)

-- `commit` with all that it computes by.
committed : ℕ → Option ℕ → String → Disk Document → Result StoreError Written
unfolding commit plan effects load load_files parse_envelope check_envelope next_unsigned next_base
    replace_primary save_previous append_journal verify_journal verified_of parse_lines chain_errors
    chain_head breaks_chain sealed matches append_line
committed = commit platform store

-- The first commit of a new store, and one by a writer that has seen it.
first_lem : commit platform store 7 none "t1" empty_disk ≡ ok first
unfolding committed
first_lem = refl

second_lem : commit platform store 9 (some 1) "t2" first.1 ≡ ok second
unfolding committed
second_lem = refl

-- The line of the first commit has its line end.
ended : (in_file first.1.journal_file).unended ≡ none
unfolding committed
ended = refl

load-commit_example :
    load platform store second.1
    ≡ record { found = some (primary_file, second.0); recovery_errors = [] }
load-commit_example =
    (load-commit platform store platform-PlatformLaws 9 (some 1) "t2" first.1 second.1 second.0
      second_lem ended).0

commit_iff_example :
    (e : StateEnvelope ℕ) × (d' : Disk Document) × (commit platform store 9 (some 1) "t2" first.1
      ≡ ok (e, d'))
unfolding committed
commit_iff_example =
    (commit_iff platform store 9 (some 1) "t2" first.1).1
      (omega arith, record { no_errors = refl; journal_verified = refl }, refl)

-- The journal of two commits, with a line that says null before its last.
abbrev with_null : JournalFile Document
with_null = record {
  ended = lines_of (in_file first.1.journal_file) ++ null ∷ [];
  unended = some (
      entry (record {
        base = next_base platform second.0 (verify_journal platform.journal first.1.journal_file);
        hash = digest_b;
      }));
}

verify_journal_iff_example :
    (values : List (Option JournalRecord)) × (map to_record (lines_of with_null) ≡ map some values)
    × Chain lines_platform 1 genesis_hash (not_null values)
unfolding committed
verify_journal_iff_example = (verify_journal_iff lines_platform with_null).0 refl

commit_lost_update_example :
    commit platform store 5 (some 1) "t3" second.1 ≡ err state_generation_conflict
commit_lost_update_example =
    commit_lost_update platform store platform-PlatformLaws 9 5 1 "t2" "t3" first.1 second.1
      second.0 second_lem (omega arith)

Commits-grow_example :
    (generation_of (load platform store second.1).found ≡ 2)
    × ((verify_journal platform.journal second.1.journal_file).record_count ≡ 2)
    × ((in_file second.1.journal_file).unended ≡ none)
unfolding committed
Commits-grow_example =
    Commits-grow platform store platform-PlatformLaws empty_disk
      (next (next here 7 none "t1" first.0 first_lem) 9 (some 1) "t2" second.0 second_lem) refl

-- Without the last line end the journal is accepted, and the next commit spoils it.
abbrev cut : Disk Document
cut = record first.1 {
  journal_file =
      some (record { ended = []; unended = get_elem? (lines_of (in_file first.1.journal_file)) 0 });
}

cut_then_spoiled :
    ((verify_journal platform.journal cut.journal_file).verified ≡ true)
    × ((verify_journal platform.journal
          (written (commit platform store 9 (some 1) "t2" cut)).1.journal_file).verified
        ≡ false)
unfolding committed
cut_then_spoiled = (refl, refl)

load-Interrupted_example :
    let crashed : Disk Document = record first.1 { previous = some torn } in
    ((load platform store crashed).found ≡ (load platform store first.1).found)
    ⊎ ((load platform store crashed).found ≡ some (primary_file, second.0))
unfolding committed
load-Interrupted_example =
    load-Interrupted platform store platform-PlatformLaws 9 (some 1) "t2" first.1 second.1 second.0
      (record first.1 { previous = some torn }) second_lem (copying (some torn) (λ e. cc))

load-damaged_example : load platform store (record second.1 { primary = some torn }) ≡ record {
  found = some (previous_file, first.0);
  recovery_errors = (primary_file, "Unexpected token") ∷ [];
}
unfolding committed
load-damaged_example =
    load-damaged platform store platform-PlatformLaws 9 (some 1) "t2" first.1 second.1 second.0
      first.0 torn "Unexpected token" second_lem refl refl
