-- ===== src/Store/Journal.antt =====
-- server/reliableStateStore.ts, `verifyJournal`: the journal is a file of lines, each the JSON of a
-- record that carries the hash of the one before it.
pub mod Laws
use malacca_port_resilience.Prelude.{
  ℕ, ◌+◌, ◌≡◌, refl, ◌↔◌, Bool, true, false, not, ◌&&◌, ◌||◌, String, Option, none, some, List, [],
  ◌∷◌, ◌++◌, map, length, ◌==◌, if◌then◌else◌, Result, ok, err, is_empty, arith,
}
use text.Mathlib.Text.{◌==◌ as str_eq}
use text.Mathlib.TextEquality.{eq_iff}

pub record JournalBase : Type 0 where
  pub protocol_version : String
  pub sequence : ℕ
  pub generation : ℕ
  pub committed_at : String
  pub state_sha256 : String
  pub previous_journal_hash : String

pub record JournalRecord : Type 0 where
  pub base : JournalBase
  pub open base use *
  pub hash : String

pub data JournalError : Type 0 where
  journal_line_invalid journal_chain_invalid : ℕ → JournalError

pub record Verified : Type 0 where
  pub verified : Bool
  pub record_count : ℕ
  pub head_hash : String
  pub errors : List JournalError

-- `'0'.repeat(64)`
abbrev pub genesis_hash : String
genesis_hash = "0000000000000000000000000000000000000000000000000000000000000000"

-- What the platform does with a line: `sha256(canonicalJson(base))`, `JSON.stringify`, and `JSON.parse`
-- (`none` where it throws, and `some none` for a line that says `null`), of which the source takes any
-- other value for a record. `join` sets one text behind another.
pub record JournalPlatform (Text : Type 0) : Type 0 where
  pub hash_base : JournalBase → String
  pub print_record : JournalRecord → Text
  pub parse_record : Text → Option (Option JournalRecord)
  pub join : Text → Text → Text

pub record JournalPlatformLaws {Text : Type 0} (p : JournalPlatform Text) : Type 0 where
  pub parse-print_record : (r : JournalRecord) → p.parse_record (p.print_record r) ≡ some (some r)

-- `journal.jsonl`: the lines that are not empty and end in a line end, and what stands behind the last
-- line end, if anything does.
pub record JournalFile (Text : Type 0) : Type 0 where
  pub ended : List Text
  pub unended : Option Text

abbrev pub no_file : {Text : Type 0} → JournalFile Text
no_file = record { ended = []; unended = none }

abbrev pub in_file : {Text : Type 0} → Option (JournalFile Text) → JournalFile Text
in_file none = no_file
in_file (some file) = file

abbrev pub lines_of : {Text : Type 0} → JournalFile Text → List Text
lines_of file = elim file.unended [ none ↦ file.ended | some text ↦ file.ended ++ text ∷ [] ]

-- `filter((value) => value !== null)`
abbrev pub not_null : List (Option JournalRecord) → List JournalRecord
not_null [] = []
not_null (none ∷ rest) = not_null rest
not_null (some r ∷ rest) = r ∷ not_null rest

module _ {Text : Type 0} (p : JournalPlatform Text) where
  open p use {hash_base, print_record, parse_record, join}

  -- A text and a line end, appended to the file's bytes: they continue a line that has not ended.
  unfoldable pub append_line : Text → JournalFile Text → JournalFile Text
  append_line text file = elim file.unended [
    | none ↦ record { ended = file.ended ++ text ∷ []; unended = none }
    | some start ↦ record { ended = file.ended ++ join start text ∷ []; unended = none }
  ]

  unfoldable pub sealed : JournalBase → JournalRecord
  sealed b = record { base = b; hash = hash_base b }

  -- What the lines parse to, and an error for each that does not; `line` counts from 1.
  unfoldable pub parse_lines : ℕ → List Text → List (Option JournalRecord) × List JournalError
  parse_lines line [] = ([], [])
  parse_lines line (text ∷ rest) =
      let (values, errors) = parse_lines (line + 1) rest in
      elim (parse_record text) [
        | none ↦ (values, journal_line_invalid line ∷ errors)
        | some value ↦ (value ∷ values, errors)
      ]

  -- The condition under which `forEach` reports a record, `position` counting from 1.
  unfoldable pub breaks_chain : ℕ → String → JournalRecord → Bool
  breaks_chain position previous r =
      not (r.sequence == position)
      || (not (str_eq r.previous_journal_hash previous) || not (str_eq r.hash (hash_base r.base)))

  unfoldable pub chain_errors : ℕ → String → List JournalRecord → List JournalError
  chain_errors position previous [] = []
  chain_errors position previous (r ∷ rest) =
      let errors = chain_errors (position + 1) r.hash rest in
      if breaks_chain position previous r then journal_chain_invalid position ∷ errors else errors

  unfoldable pub chain_head : String → List JournalRecord → String
  chain_head previous [] = previous
  chain_head previous (r ∷ rest) = chain_head r.hash rest

  unfoldable pub verified_of : List (Option JournalRecord) × List JournalError → Verified
  verified_of (values, line_errors) =
      let records = not_null values in
      let errors = line_errors ++ chain_errors 1 genesis_hash records in
      record {
        verified = is_empty errors;
        record_count = length records;
        head_hash = chain_head genesis_hash records;
        errors = errors;
      }

  unfoldable pub verify_journal : Option (JournalFile Text) → Verified
  verify_journal none = record {
    verified = true;
    record_count = 0;
    head_hash = genesis_hash;
    errors = [];
  }
  verify_journal (some file) = verified_of (parse_lines 1 (lines_of file))
