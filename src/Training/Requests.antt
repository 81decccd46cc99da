-- ===== src/Training/Requests.antt =====
-- The invariant of the queue over a request, a cancellation and a callback.
use malacca_port_resilience.Prelude.{
  ℕ, suc, ◌+◌, ◌≤◌, ◌≡◌, ◌≢◌, refl, subst, ap, false, Option, none, some, List, [], ◌∷◌, ◌++◌,
  length, length-append, get_elem?, arith, leb, inl, inr, Bool-cases, leb→lt, String, lookup,
}
use mathlib.Core.List.{append-nil}
use malacca_port_resilience.Training.Places.{
  times, count_workers, times-append, get_elem?-append, Fits, Placed, at_each, Fits-started,
  Fits-cancelled, get_elem?-modify_self, get_elem?-modify_other, count_workers_self,
  count_workers_other,
}
use malacca_port_resilience.Training.{
  running, TrainingJob, loading, TrainingQueue, Limits, modify, waiting, is_queued,
  TrainingPlatform, TrainingRequest, append_log, create_job, start_job, cancel_job,
  create_rl_training_job, cancel_rl_training_job, run_scheduled,
}
use malacca_port_resilience.Training.Invariants.{Inv, pump-Inv, waiting-modify}

pub times_self : (a : ℕ) (rest : List ℕ) → times a (a ∷ rest) ≡ suc (times a rest)
times_self a rest = ground arith

times_other : (a b : ℕ) (rest : List ℕ) → a ≢ b → times b (a ∷ rest) ≡ times b rest
times_other a b rest n = ground arith

one_more : (a b n : ℕ) → a ≢ b → n ≡ n + times b (a ∷ [])
one_more a b n h = ground arith

module _ {N P : Type 0} where
  pub start_job_running :
      (p : TrainingPlatform N) (now : ℕ) (j : TrainingJob N P)
      → (start_job p now j).status ≡ running
  unfolding start_job append_log
  start_job_running p now j = refl

  started_not_queued :
      (p : TrainingPlatform N) (now : ℕ) (j : TrainingJob N P)
      → is_queued (start_job p now j).status ≡ false
  started_not_queued p now j = rw (start_job_running p now j) refl

  cancel_not_queued :
      (p : TrainingPlatform N) (now : ℕ) (j : TrainingJob N P)
      → is_queued j.status ≡ false
      → is_queued (cancel_job p now j).status ≡ false
  unfolding cancel_job append_log
  cancel_not_queued p now j q = ground arith

  waiting-append :
      (heap : List (TrainingJob N P)) (j : TrainingJob N P) (ps : List ℕ)
      → waiting (heap ++ j ∷ []) ps ≤ waiting heap ps + times (length heap) ps
  waiting-append heap j [] = omega arith
  waiting-append heap j (b ∷ ps) =
      ground (arith, get_elem?-append b heap j, waiting-append heap j ps)

  waiting-push :
      (heap : List (TrainingJob N P)) (ps : List ℕ) (a : ℕ)
      → waiting heap (ps ++ a ∷ []) ≤ waiting heap ps + 1
  waiting-push heap [] a = ground arith
  waiting-push heap (b ∷ ps) a = ground (arith, waiting-push heap ps a)

  pub get_elem?-length : (heap : List (TrainingJob N P)) → get_elem? heap (length heap) ≡ none
  get_elem?-length [] = refl
  get_elem?-length (j ∷ heap) = get_elem?-length heap

  get_elem?-append_self :
      (heap : List (TrainingJob N P)) (j : TrainingJob N P)
      → get_elem? (heap ++ j ∷ []) (length heap) ≡ some j
  get_elem?-append_self heap j = ground (arith, get_elem?-append (length heap) heap j)

  get_elem?-append_other :
      (heap : List (TrainingJob N P)) (j : TrainingJob N P) (b : ℕ)
      → length heap ≢ b
      → get_elem? (heap ++ j ∷ []) b ≡ get_elem? heap b
  get_elem?-append_other heap j b n = ground (arith, get_elem?-append b heap j)

  Fits-same :
      (o : Option (TrainingJob N P)) (w w' s s' r : ℕ)
      → w ≡ w'
      → s ≡ s'
      → Fits o w s r
      → Fits o w' s' r
  Fits-same o w w' s s' r e e' h = rw (← e, ← e') h

  -- No list has the address that the next job gets.
  nowhere :
      (s : TrainingQueue N P)
      → Placed s
      → let a = length s.heap in
        times a s.pending_jobs + times a s.scheduled + count_workers a s.workers ≡ 0
  unfolding Fits
  nowhere s v =
      let a = length s.heap in
      let h : Fits {N = N} {P = P} none (times a s.pending_jobs) (times a s.scheduled)
          (count_workers a s.workers) =
        subst
          (λ o. Fits o (times a s.pending_jobs) (times a s.scheduled) (count_workers a s.workers))
          (get_elem?-length s.heap) (v a) in
      h

  created-Fits :
      (p : TrainingPlatform N) (uuid : String) (q : TrainingRequest N) (now a w s r : ℕ)
      (j : TrainingJob N P)
      → j ≡ create_job p uuid q now
      → w + s + r ≡ 0
      → Fits (some j) (w + times a (a ∷ [])) s r
  unfolding Fits create_job append_log
  created-Fits p uuid q now a w s r j e h = rw e (ground arith)

  module _ (p : TrainingPlatform N) (l : Limits) where
    pub run_scheduled-Inv :
        (now : ℕ) (s : TrainingQueue N P) → Inv l s → Inv l (run_scheduled p now s)
    unfolding run_scheduled
    run_scheduled-Inv now s v = go s.scheduled refl
      where
        go :
            (c : List ℕ)
            → s.scheduled ≡ c
            → Inv l (elim c [
              | [] ↦ s
              | a ∷ rest ↦ record s {
                heap = modify a (start_job p now) s.heap;
                scheduled = rest;
                workers = s.workers ++ (a, loading) ∷ [];
              }
            ])
        go [] e = v
        go (a ∷ rest) e =
            let listed : (b : ℕ)
                → Fits (get_elem? s.heap b) (times b s.pending_jobs) (times b (a ∷ rest))
                    (count_workers b s.workers) =
              λ b.
                subst
                  (λ c.
                    Fits (get_elem? s.heap b) (times b s.pending_jobs) (times b c)
                      (count_workers b s.workers))
                  e (v.held.placed b) in
            record {
              held = record {
                slots =
                    omega (
                      arith,
                      v.held.slots,
                      ap length e,
                      length-append s.workers ((a, loading) ∷ []),
                    );
                within = v.held.within;
                queue = omega (
                  arith,
                  v.held.queue,
                  waiting-modify a (start_job p now) s.heap s.pending_jobs
                      (λ j q. started_not_queued p now j),
                );
                placed =
                    at_each _ a
                      (rw
                        (
                          get_elem?-modify_self a (start_job p now) s.heap,
                          count_workers_self a loading s.workers [],
                          append-nil s.workers,
                        )
                        (Fits-started _ (start_job p now) _ _ _ (start_job_running p now)
                          (Fits-same _ _ _ _ _ _ refl (times_self a rest) (listed a))))
                      (λ b n.
                        rw
                          (
                            get_elem?-modify_other a b (start_job p now) s.heap n,
                            count_workers_other a b loading s.workers [] n,
                            append-nil s.workers,
                          )
                          (Fits-same _ _ _ _ _ _ refl (times_other a b rest n) (listed b)));
              };
              no_free_slot = v.no_free_slot;
            }

    pub cancel-Inv :
        (now : ℕ) (id : String) (s : TrainingQueue N P)
        → Inv l s
        → Inv l (cancel_rl_training_job p now id s)
    unfolding cancel_rl_training_job
    cancel-Inv now id s v = go (lookup id s.jobs)
      where
        go :
            (o : Option ℕ)
            → Inv l (elim o [
              | none ↦ s
              | some a ↦ record s { heap = modify a (cancel_job p now) s.heap }
            ])
        go none = v
        go (some a) = record {
          held = record {
            slots = v.held.slots;
            within = v.held.within;
            queue = omega (
              arith,
              v.held.queue,
              waiting-modify a (cancel_job p now) s.heap s.pending_jobs (cancel_not_queued p now),
            );
            placed =
                at_each _ a
                  (rw (get_elem?-modify_self a (cancel_job p now) s.heap)
                    (Fits-cancelled p now _ _ _ _ (v.held.placed a)))
                  (λ b n.
                    rw (get_elem?-modify_other a b (cancel_job p now) s.heap n) (v.held.placed b));
          };
          no_free_slot = v.no_free_slot;
        }

    pub create-Inv :
        (uuid : String) (q : TrainingRequest N) (now : ℕ) (s : TrainingQueue N P)
        → Inv l s
        → Inv l (create_rl_training_job p l uuid q now s).1
    unfolding create_rl_training_job
    create-Inv uuid q now s v =
        elim (Bool-cases (leb l.max_queued_jobs (waiting s.heap s.pending_jobs))) [
          | inl full ↦ rw full v
          | inr room ↦
              let j : TrainingJob N P = create_job p uuid q now in
              let a = length s.heap in
              rw room (
                pump-Inv l _ (record {
                  slots = v.held.slots;
                  within = v.held.within;
                  queue = omega (
                    arith,
                    leb→lt l.max_queued_jobs (waiting s.heap s.pending_jobs) room,
                    waiting-push (s.heap ++ j ∷ []) s.pending_jobs a,
                    waiting-append s.heap j s.pending_jobs,
                    nowhere s v.held.placed,
                  );
                  placed =
                      at_each _ a
                        (rw (get_elem?-append_self s.heap j, times-append a s.pending_jobs (a ∷ []))
                          (created-Fits p uuid q now a _ _ _ j refl (nowhere s v.held.placed)))
                        (λ b n.
                          rw
                            (
                              get_elem?-append_other s.heap j b n,
                              times-append b s.pending_jobs (a ∷ []),
                            )
                            (Fits-same _ _ _ _ _ _ (one_more a b _ n) refl (v.held.placed b)));
                }))
        ]
