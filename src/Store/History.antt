-- ===== src/Store/History.antt =====
-- When `DurableStateStore.commit` succeeds, two writers of one generation, and sequences of commits.
use malacca_port_resilience.Prelude.{
  ℕ, zero, suc, ◌+◌, ◌≤◌, ◌≡◌, ◌↔◌, ap, inl, inr, true, false, String, Option, none, some, [],
  Result-cases, ok, err, is_empty_iff, arith,
}
use malacca_port_resilience.Store.Journal.{verify_journal, in_file}
use malacca_port_resilience.Store.Commit.{commit-Planned, load-commit, load-commit_state}
use malacca_port_resilience.Store.{
  StateEnvelope, Platform, PlatformLaws, Disk, state_generation_conflict, Store, load,
  generation_of, is_stale, plan, commit,
}

module _ {Text T : Type 0} (p : Platform Text T) (s : Store) where
  -- Nothing of what `load` and `verifyJournal` read is damaged.
  pub record Healthy (d : Disk Text) : Type 0 where
    pub no_errors : (load p s d).recovery_errors ≡ []
    pub journal_verified : (verify_journal p.journal d.journal_file).verified ≡ true

  commit_stale :
      (payload : T) (expected : Option ℕ) (now : String) (d : Disk Text)
      → p.payload_bytes payload ≤ s.maximum_payload_bytes
      → (load p s d).recovery_errors ≡ []
      → is_stale expected (generation_of (load p s d).found) ≡ true
      → commit p s payload expected now d ≡ err state_generation_conflict
  unfolding commit plan
  commit_stale payload expected now d fits sound stale =
      ground (arith, is_empty_iff (load p s d).recovery_errors)

  -- A commit succeeds exactly if the payload fits, the disk is healthy, and the writer expects
  -- either nothing or the generation that is there.
  pub commit_iff :
      (payload : T) (expected : Option ℕ) (now : String) (d : Disk Text)
      → ((e : StateEnvelope T) × (d' : Disk Text) × (commit p s payload expected now d
            ≡ ok (e, d')))
        ↔ ((p.payload_bytes payload ≤ s.maximum_payload_bytes)
            × Healthy d
            × (is_stale expected (generation_of (load p s d).found) ≡ false))
  unfolding commit plan
  commit_iff payload expected now d = (
    (λ (e, d', h). ground (arith, is_empty_iff (load p s d).recovery_errors)),
    (λ (fits, healthy, fresh). elim (Result-cases (commit p s payload expected now d)) [
      | inl ((e, d'), h) ↦ (e, d', h)
      | inr (x, h) ↦ absurd (ground (arith, is_empty_iff (load p s d).recovery_errors))
    ]),
  )

  module _ (laws : PlatformLaws p) where
    -- Of two writers that have read the same generation, the first to commit wins: the other, with a
    -- payload that fits, is told of the conflict.
    pub commit_lost_update :
        (mine theirs : T) (generation : ℕ) (now later : String) (d d' : Disk Text)
        (e : StateEnvelope T)
        → commit p s mine (some generation) now d ≡ ok (e, d')
        → p.payload_bytes theirs ≤ s.maximum_payload_bytes
        → commit p s theirs (some generation) later d' ≡ err state_generation_conflict
    commit_lost_update mine theirs generation now later d d' e h fits =
        let (r, planned, after) = commit-Planned p s mine (some generation) now d d' e h in
        let (loads, own, grown, link) =
          load-commit_state p s laws mine (some generation) now d d' e h in
        commit_stale theirs (some generation) later d' fits (ap (λ l. l.recovery_errors) loads)
          (rw loads (ground (arith, planned.current, grown)))

    -- A sequence of commits that all succeed, with the number of them.
    pub data Commits (start : Disk Text) : ℕ → Disk Text → Type 0 where
      here : Commits start zero start
      next :
          {n : ℕ} {d d' : Disk Text}
          → Commits start n d
          → (payload : T) (expected : Option ℕ) (now : String) (e : StateEnvelope T)
          → commit p s payload expected now d ≡ ok (e, d')
          → Commits start (suc n) d'

    -- From a journal whose last line has its line end on, after n commits the generation has grown by
    -- n, and so has the journal, which has its line end again.
    pub Commits-grow :
        (start : Disk Text) {n : ℕ} {d : Disk Text}
        → Commits start n d
        → (in_file start.journal_file).unended ≡ none
        → (generation_of (load p s d).found ≡ generation_of (load p s start).found + n)
          × ((verify_journal p.journal d.journal_file).record_count
              ≡ (verify_journal p.journal start.journal_file).record_count + n)
          × ((in_file d.journal_file).unended ≡ none)
    Commits-grow start here ended = (omega arith, omega arith, ended)
    Commits-grow start (next {d = d} {d' = d'} before payload expected now e h) ended =
        let (generation, count, still) = Commits-grow start before ended in
        let (loads, own, grown, link, verified, count', ended') =
          load-commit p s laws payload expected now d d' e h still in
        (ground (arith, loads, grown, generation), omega (arith, count, count'), ended')
