-- ===== src/Store/Crash.antt =====
-- A commit that a crash cuts short, and a primary file that is damaged afterwards.
use malacca_port_resilience.Prelude.{
  ℕ, ◌≡◌, ◌≢◌, refl, ap, ◌⊎◌, inl, inr, String, Option, Option-cases, ◌∙◌, none, some, [], ◌∷◌,
  Result-cases, ok, err, arith,
}
use malacca_port_resilience.Store.Journal.{JournalFile, JournalRecord}
use malacca_port_resilience.Store.Commit.{commit-Planned, load-effects, effects-parts}
use malacca_port_resilience.Store.{
  StateEnvelope, Platform, PlatformLaws, Disk, primary_file, previous_file, Store, load_files, load,
  parse_envelope, save_previous, effects, commit,
}

-- What a crash can leave between the effects of a commit that would have turned `d` into `d'`. A copy
-- and an append may be torn, so the file that they write holds anything; a rename is not.
pub data Interrupted {Text : Type 0} (d d' : Disk Text) : Disk Text → Type 0 where
  untouched : Interrupted d d' d
  copying :
      (torn : Option Text) → d.primary ≢ none → Interrupted d d' (record d { previous = torn })
  replaced :
      Interrupted d d'
        (record { primary = d'.primary; previous = d'.previous; journal_file = d.journal_file })
  appending :
      (torn : Option (JournalFile Text)) → Interrupted d d' (record d' { journal_file = torn })

module _ {Text T : Type 0} (p : Platform Text T) (s : Store) where
  -- The second file is read only if the first is missing or damaged.
  load-previous :
      (d : Disk Text) (torn : Option Text)
      → d.primary ≢ none
      → (load p s d).recovery_errors ≡ []
      → (load p s (record d { previous = torn })).found ≡ (load p s d).found
  unfolding load load_files
  load-previous d torn h e = elim (Option-cases d.primary) [
    | inl absent ↦ absurd (h absent)
    | inr (body, there) ↦ elim (Result-cases (parse_envelope p s.store_id body)) [
      | inl (found, good) ↦ ground arith
      | inr (message, bad) ↦ absurd (ground arith)
    ]
  ]

  -- An envelope that was found in the primary file is what the file's text stands for.
  found_primary :
      (d : Disk Text) (before : StateEnvelope T)
      → (load p s d).found ≡ some (primary_file, before)
      → (body : Text) × (d.primary ≡ some body) × (parse_envelope p s.store_id body ≡ ok before)
  unfolding load load_files
  found_primary d before h = elim (Option-cases d.primary) [
    | inl absent ↦ absurd (ground arith)
    | inr (body, there) ↦ elim (Result-cases (parse_envelope p s.store_id body)) [
      | inl (found, good) ↦ (body, there, ground arith)
      | inr (message, bad) ↦ absurd (ground arith)
    ]
  ]

  effects-previous :
      (e : StateEnvelope T) (r : JournalRecord) (d : Disk Text) {body : Text}
      → d.primary ≡ some body
      → (effects p (e, r) d).previous ≡ some body
  unfolding effects save_previous
  effects-previous e r d h = ground arith

  module _ (laws : PlatformLaws p) where
    load-written :
        (payload : T) (expected : Option ℕ) (now : String) (d d' : Disk Text) (e : StateEnvelope T)
        → commit p s payload expected now d ≡ ok (e, d')
        → (j : Option (JournalFile Text))
        → (load p s
            (record { primary = d'.primary; previous = d'.previous; journal_file = j })).found
          ≡ some (primary_file, e)
    load-written payload expected now d d' e h j =
        let (r, planned, after) = commit-Planned p s payload expected now d d' e h in
        let written : d'.primary ≡ some (p.print_envelope e) =
          ap (λ x. x.primary) after ∙ (effects-parts p s e r d).0 in
        rw written (ap (λ l. l.found) (load-effects p s laws planned j d'.previous))

    -- Whenever a crash cuts a commit short, the state that loads is either the one from before, with
    -- no error, or the new one.
    pub load-Interrupted :
        (payload : T) (expected : Option ℕ) (now : String) (d d' : Disk Text) (e : StateEnvelope T)
        (crashed : Disk Text)
        → commit p s payload expected now d ≡ ok (e, d')
        → Interrupted d d' crashed
        → ((load p s crashed).found ≡ (load p s d).found)
          ⊎ ((load p s crashed).found ≡ some (primary_file, e))
    load-Interrupted payload expected now d d' e crashed h untouched = inl refl
    load-Interrupted payload expected now d d' e crashed h (copying torn there) =
        let (r, planned, after) = commit-Planned p s payload expected now d d' e h in
        inl (load-previous d torn there planned.no_errors)
    load-Interrupted payload expected now d d' e crashed h replaced =
        inr (load-written payload expected now d d' e h d.journal_file)
    load-Interrupted payload expected now d d' e crashed h (appending torn) =
        inr (load-written payload expected now d d' e h torn)

    -- If the primary file is damaged after a commit, the state of one generation before still loads,
    -- provided that the primary file held it, and the damage is reported.
    pub load-damaged :
        (payload : T) (expected : Option ℕ) (now : String) (d d' : Disk Text)
        (e before : StateEnvelope T) (damaged : Text) (message : String)
        → commit p s payload expected now d ≡ ok (e, d')
        → (load p s d).found ≡ some (primary_file, before)
        → parse_envelope p s.store_id damaged ≡ err message
        → load p s (record d' { primary = some damaged }) ≡ record {
          found = some (previous_file, before);
          recovery_errors = (primary_file, message) ∷ [];
        }
    unfolding load load_files
    load-damaged payload expected now d d' e before damaged message h held bad =
        let (body, there, good) = found_primary d before held in
        let (r, planned, after) = commit-Planned p s payload expected now d d' e h in
        let saved : d'.previous ≡ some body =
          ap (λ x. x.previous) after ∙ effects-previous e r d there in
        ground (arith, saved, good, bad)
