-- ===== src/Store/Journal/Laws.antt =====
-- What `verifyJournal` accepts, and what an append does to it.
use malacca_port_resilience.Prelude.{
  ℕ, ◌+◌, ◌≡◌, refl, ap, ◌↔◌, true, String, Option, none, some, List, [], ◌∷◌, ◌++◌, map, length,
  length-append, append-eq-nil_iff, is_empty_iff, arith,
}
use mathlib.Core.List.{tail}
use text.Mathlib.TextEquality.{eq_iff}
use malacca_port_resilience.Store.Journal.{
  JournalBase, JournalRecord, JournalPlatform, JournalPlatformLaws, genesis_hash, sealed,
  JournalFile, no_file, lines_of, not_null, append_line, parse_lines, breaks_chain, chain_errors,
  chain_head, verified_of, verify_journal,
}

-- The records that a sound journal holds: numbered from `position`, each with the hash of its own
-- content and of the record before it.
abbrev pub Chain : {Text : Type 0} → JournalPlatform Text → ℕ → String → List JournalRecord → Type 0
Chain p position previous [] = Unit
Chain p position previous (r ∷ rest) =
    (r.sequence ≡ position)
    × (r.previous_journal_hash ≡ previous)
    × (r.hash ≡ p.hash_base r.base)
    × Chain p (position + 1) r.hash rest

module _ {Text : Type 0} (p : JournalPlatform Text) where
  open p use {hash_base, print_record, parse_record}

  chain_errors_iff :
      (position : ℕ) (previous : String) (rs : List JournalRecord)
      → (chain_errors p position previous rs ≡ []) ↔ Chain p position previous rs
  unfolding chain_errors breaks_chain
  chain_errors_iff position previous [] = ((λ _. tt), (λ _. refl))
  chain_errors_iff position previous (r ∷ rest) = ground (
    arith,
    chain_errors_iff (position + 1) r.hash rest,
    eq_iff r.previous_journal_hash previous,
    eq_iff r.hash (hash_base r.base),
  )

  parse_lines_sound :
      (line : ℕ) (texts : List Text)
      → (parse_lines p line texts).1 ≡ []
      → map parse_record texts ≡ map some (parse_lines p line texts).0
  unfolding parse_lines
  parse_lines_sound line [] h = refl
  parse_lines_sound line (text ∷ texts) h = ground (arith, parse_lines_sound (line + 1) texts)

  parse_lines_complete :
      (line : ℕ) (texts : List Text) (values : List (Option JournalRecord))
      → map parse_record texts ≡ map some values
      → parse_lines p line texts ≡ (values, [])
  unfolding parse_lines
  parse_lines_complete line [] [] h = refl
  parse_lines_complete line [] (r ∷ rs) h = cc
  parse_lines_complete line (text ∷ texts) [] h = cc
  parse_lines_complete line (text ∷ texts) (r ∷ rs) h =
      let e : parse_record text ≡ some r = cc in
      rw (e, parse_lines) (rw (parse_lines_complete (line + 1) texts rs (ap tail h)))

  chain_errors-append :
      (position : ℕ) (previous : String) (rs : List JournalRecord) (b : JournalBase)
      → chain_errors p position previous rs ≡ []
      → b.sequence ≡ position + length rs
      → b.previous_journal_hash ≡ chain_head p previous rs
      → (chain_errors p position previous (rs ++ sealed p b ∷ []) ≡ [])
        × (chain_head p previous (rs ++ sealed p b ∷ []) ≡ hash_base b)
  unfolding chain_errors breaks_chain chain_head sealed
  chain_errors-append position previous [] b h hs hp =
      ground (arith, eq_iff b.previous_journal_hash previous, eq_iff (hash_base b) (hash_base b))
  chain_errors-append position previous (r ∷ rest) b h hs hp =
      ground (arith, chain_errors-append (position + 1) r.hash rest b)

  parse_lines-append :
      (laws : JournalPlatformLaws p) (line : ℕ) (texts : List Text) (r : JournalRecord)
      → parse_lines p line (texts ++ print_record r ∷ [])
        ≡ ((parse_lines p line texts).0 ++ some r ∷ [], (parse_lines p line texts).1)
  unfolding parse_lines
  parse_lines-append laws line [] r = ground (arith, laws.parse-print_record r)
  parse_lines-append laws line (text ∷ texts) r =
      ground (arith, parse_lines-append laws (line + 1) texts r)

  not_null-append :
      (values : List (Option JournalRecord)) (r : JournalRecord)
      → not_null (values ++ some r ∷ []) ≡ not_null values ++ r ∷ []
  not_null-append [] r = refl
  not_null-append (none ∷ rest) r = not_null-append rest r
  not_null-append (some x ∷ rest) r = ap (λ rs. x ∷ rs) (not_null-append rest r)

  -- A journal is accepted exactly if each of its lines, the last one with or without a line end, parses
  -- to a record or to null, and the records form a chain.
  pub verify_journal_iff :
      (file : JournalFile Text)
      → ((verify_journal p (some file)).verified ≡ true) ↔ (
          (values : List (Option JournalRecord)) × (map parse_record (lines_of file)
            ≡ map some values)
          × Chain p 1 genesis_hash (not_null values))
  unfolding verify_journal verified_of
  verify_journal_iff file = (
    (λ h.
        let (lines, links) = (append-eq-nil_iff _ _).0 ((is_empty_iff _).0 h) in
        (
          (parse_lines p 1 (lines_of file)).0,
          parse_lines_sound 1 (lines_of file) lines,
          (chain_errors_iff 1 genesis_hash _).0 links,
        )),
    (λ (values, parsed, chain). rw (
      parse_lines_complete 1 (lines_of file) values parsed,
      (chain_errors_iff 1 genesis_hash (not_null values)).1 chain,
    )),
  )

  -- Appending the next record to a journal that is accepted, and whose last line has ended, gives one
  -- that is accepted.
  pub verify_journal-append_line :
      (laws : JournalPlatformLaws p) (file : JournalFile Text) (b : JournalBase)
      → file.unended ≡ none
      → (verify_journal p (some file)).verified ≡ true
      → b.sequence ≡ (verify_journal p (some file)).record_count + 1
      → b.previous_journal_hash ≡ (verify_journal p (some file)).head_hash
      → verify_journal p (some (append_line p (print_record (sealed p b)) file)) ≡ record {
        verified = true;
        record_count = (verify_journal p (some file)).record_count + 1;
        head_hash = hash_base b;
        errors = [];
      }
  unfolding verify_journal verified_of append_line
  verify_journal-append_line laws file b hu hv hs hp =
      let texts = lines_of file in
      let (lines, links) =
        (append-eq-nil_iff (parse_lines p 1 texts).1 _).0 ((is_empty_iff _).0 hv) in
      let records = not_null (parse_lines p 1 texts).0 in
      let (links', head) = chain_errors-append 1 genesis_hash records b links (omega arith) hp in
      let same : lines_of file ≡ file.ended = ground (arith, hu) in
      let appended : lines_of (append_line p (print_record (sealed p b)) file)
          ≡ lines_of file ++ print_record (sealed p b) ∷ [] =
        ground (arith, hu) in
      rw
        (
          appended,
          parse_lines-append laws 1 texts (sealed p b),
          not_null-append (parse_lines p 1 texts).0 (sealed p b),
          lines,
          links',
          head,
        )
        (ground (arith, length-append records (sealed p b ∷ [])))

  -- A journal whose file is not there yet counts as one without lines.
  pub verify_journal-none : verify_journal p (some no_file) ≡ verify_journal p none
  unfolding verify_journal verified_of parse_lines chain_errors chain_head
  verify_journal-none = refl
