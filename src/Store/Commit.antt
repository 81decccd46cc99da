-- ===== src/Store/Commit.antt =====
-- What a commit that succeeds leaves on the disk, and when it succeeds.
use malacca_port_resilience.Prelude.{
  ℕ, ◌+◌, ◌≡◌, refl, ap, ◌∙◌, inl, inr, true, false, String, Option, none, some, [], Result-cases,
  ok, arith, is_empty_iff,
}
use text.Mathlib.TextEquality.{eq_iff}
use malacca_port_resilience.Store.Journal.{
  JournalFile, JournalRecord, sealed, verify_journal, in_file, append_line,
}
use malacca_port_resilience.Store.Journal.Laws.{verify_journal-append_line, verify_journal-none}
use malacca_port_resilience.Store.{
  StateEnvelope, Platform, PlatformLaws, Disk, Source, primary_file, Store, check_envelope,
  parse_envelope, load_files, load, generation_of, digest_of, is_stale, next_unsigned, next_base,
  plan, effects, commit,
}

module _ {Text T : Type 0} (p : Platform Text T) (s : Store) where
  -- What `plan` has found out when it returns an envelope and a record.
  pub record Planned (payload : T) (expected : Option ℕ) (now : String) (d : Disk Text)
      (e : StateEnvelope T) (r : JournalRecord) : Type 0 where
    pub no_errors : (load p s d).recovery_errors ≡ []
    pub current : is_stale expected (generation_of (load p s d).found) ≡ false
    pub journal_verified : (verify_journal p.journal d.journal_file).verified ≡ true
    pub envelope : e ≡ record {
      unsigned = next_unsigned p s now payload (load p s d).found;
      envelope_sha256 = p.hash_unsigned (next_unsigned p s now payload (load p s d).found);
    }
    pub journal_record :
        r ≡ sealed p.journal (next_base p e (verify_journal p.journal d.journal_file))

  pub plan-Planned :
      (payload : T) (expected : Option ℕ) (now : String) (d : Disk Text) (e : StateEnvelope T)
      (r : JournalRecord)
      → plan p s payload expected now d ≡ ok (e, r)
      → Planned payload expected now d e r
  unfolding plan
  plan-Planned payload expected now d e r h =
      ground (arith, is_empty_iff (load p s d).recovery_errors)

  pub commit-Planned :
      (payload : T) (expected : Option ℕ) (now : String) (d d' : Disk Text) (e : StateEnvelope T)
      → commit p s payload expected now d ≡ ok (e, d')
      → (r : JournalRecord) × Planned payload expected now d e r × (d' ≡ effects p (e, r) d)
  unfolding commit
  commit-Planned payload expected now d d' e h =
      elim (Result-cases (plan p s payload expected now d)) [
        | inl ((e', r), q) ↦
            let same : e' ≡ e = ground (arith, q) in
            (r, plan-Planned payload expected now d e r (rw (← same) q), ground (arith, q))
        | inr (x, q) ↦ cc
      ]

  pub effects-parts :
      (e : StateEnvelope T) (r : JournalRecord) (d : Disk Text)
      → ((effects p (e, r) d).primary ≡ some (p.print_envelope e))
        × ((effects p (e, r) d).journal_file
            ≡ some (append_line p.journal (p.journal.print_record r) (in_file d.journal_file)))
  unfolding effects
  effects-parts e r d = ground arith

  module _ (laws : PlatformLaws p) where
    -- The envelope that `commit` builds passes `parseEnvelope`.
    parse_envelope-next :
        (payload : T) (now : String) (current : Option (Source × StateEnvelope T))
        → let u = next_unsigned p s now payload current in
          let e : StateEnvelope T = record { unsigned = u; envelope_sha256 = p.hash_unsigned u } in
          parse_envelope p s.store_id (p.print_envelope e) ≡ ok e
    unfolding parse_envelope check_envelope next_unsigned
    parse_envelope-next payload now current =
        let u = next_unsigned p s now payload current in
        rw
          (
            laws.parse-print (record { unsigned = u; envelope_sha256 = p.hash_unsigned u }),
            parse_envelope,
          )
          (ground (
            arith,
            laws.hash_payload_hex payload,
            laws.hash_unsigned_hex u,
            eq_iff s.store_id s.store_id,
            eq_iff (p.hash_payload payload) (p.hash_payload payload),
            eq_iff (p.hash_unsigned u) (p.hash_unsigned u),
          ))

    pub load-effects :
        {payload : T} {expected : Option ℕ} {now : String} {d : Disk Text} {e : StateEnvelope T}
        {r : JournalRecord}
        → Planned payload expected now d e r
        → (j : Option (JournalFile Text)) (previous : Option Text)
        → load p s
            (record { primary = some (p.print_envelope e); previous = previous; journal_file = j })
          ≡ record { found = some (primary_file, e); recovery_errors = [] }
    unfolding load load_files
    load-effects {payload} {now = now} {d = d} {e = e} h j previous =
        rw (h.envelope, parse_envelope-next payload now (load p s d).found, load_files)

    journal-effects :
        {payload : T} {expected : Option ℕ} {now : String} {d : Disk Text} {e : StateEnvelope T}
        {r : JournalRecord}
        → Planned payload expected now d e r
        → (in_file d.journal_file).unended ≡ none
        → verify_journal p.journal
            (some (append_line p.journal (p.journal.print_record r) (in_file d.journal_file)))
          ≡ record {
            verified = true;
            record_count = (verify_journal p.journal d.journal_file).record_count + 1;
            head_hash = r.hash;
            errors = [];
          }
    unfolding next_base sealed
    journal-effects {d = d} {e = e} h ended =
        let file = in_file d.journal_file in
        let before : verify_journal p.journal (some file)
            ≡ verify_journal p.journal d.journal_file =
          elim d.journal_file
            as (λ j. verify_journal p.journal (some (in_file j)) ≡ verify_journal p.journal j) [
              | none ↦ verify_journal-none p.journal
              | some lines ↦ refl
            ] in
        rw (h.journal_record, ← before)
          (verify_journal-append_line p.journal laws.journal_laws file
            (next_base p e (verify_journal p.journal (some file))) ended
            (rw before h.journal_verified) refl refl)

    -- What a commit leaves to be loaded, whatever the journal is like.
    pub load-commit_state :
        (payload : T) (expected : Option ℕ) (now : String) (d d' : Disk Text) (e : StateEnvelope T)
        → commit p s payload expected now d ≡ ok (e, d')
        → (load p s d' ≡ record { found = some (primary_file, e); recovery_errors = [] })
          × (e.payload ≡ payload)
          × (e.generation ≡ generation_of (load p s d).found + 1)
          × (e.previous_state_sha256 ≡ digest_of (load p s d).found)
    unfolding commit effects next_unsigned
    load-commit_state payload expected now d d' e h =
        let (r, planned, after) = commit-Planned payload expected now d d' e h in
        let (written, appended) = effects-parts e r d in
        ground (arith, load-effects planned d'.journal_file d'.previous)

    append_line_ended :
        (text : Text) (file : JournalFile Text) → (append_line p.journal text file).unended ≡ none
    unfolding append_line
    append_line_ended text file = ground arith

    -- If the journal's last line had its line end, then after a commit the state loads as the envelope
    -- that was returned: one generation on, with the payload that was given and the digest of the
    -- envelope before it. The journal has one record more, still verifies, and its last line has its
    -- line end again.
    pub load-commit :
        (payload : T) (expected : Option ℕ) (now : String) (d d' : Disk Text) (e : StateEnvelope T)
        → commit p s payload expected now d ≡ ok (e, d')
        → (in_file d.journal_file).unended ≡ none
        → (load p s d' ≡ record { found = some (primary_file, e); recovery_errors = [] })
          × (e.payload ≡ payload)
          × (e.generation ≡ generation_of (load p s d).found + 1)
          × (e.previous_state_sha256 ≡ digest_of (load p s d).found)
          × ((verify_journal p.journal d'.journal_file).verified ≡ true)
          × ((verify_journal p.journal d'.journal_file).record_count
              ≡ (verify_journal p.journal d.journal_file).record_count + 1)
          × ((in_file d'.journal_file).unended ≡ none)
    load-commit payload expected now d d' e h ended =
        let (r, planned, after) = commit-Planned payload expected now d d' e h in
        let (loads, own, grown, link) = load-commit_state payload expected now d d' e h in
        let journal : d'.journal_file
            ≡ some (append_line p.journal (p.journal.print_record r) (in_file d.journal_file)) =
          ap (λ x. x.journal_file) after ∙ (effects-parts e r d).1 in
        let verified = journal-effects planned ended in
        (
          loads,
          own,
          grown,
          link,
          rw (journal, verified) refl,
          rw (journal, verified) refl,
          rw journal (append_line_ended (p.journal.print_record r) (in_file d.journal_file)),
        )
