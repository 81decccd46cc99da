-- ===== src/Training/Steps.antt =====
-- Every sequence of steps of the queue, whatever the callers, the clock and the training do.
use malacca_port_resilience.Prelude.{
  ℕ, suc, ◌+◌, ◌≤◌, ◌≡◌, ◌≢◌, refl, ap, ◌∙◌, sym, subst, Option-cases, List-cases, Bool, true,
  false, Option, none, some, List, [], ◌∷◌, ◌++◌, length, get_elem?, arith, ◌⊎◌, inl, inr, String,
  lookup,
}
use malacca_port_resilience.Training.Places.{
  times, count_workers, count_workers_self, Fits, is_over, get_elem?-append, get_elem?-modify,
  get_elem?-modify_other,
}
use malacca_port_resilience.Training.Invariants.{Inv, continue_worker-Inv, end_worker-Inv}
use malacca_port_resilience.Training.Requests.{
  get_elem?-length, times_self, run_scheduled-Inv, cancel-Inv, create-Inv,
}
use malacca_port_resilience.Training.{
  JobStatus, completed, failed, TrainingJob, Stage, loading, training, writing, TrainingQueue,
  Limits, modify, waiting, TrainingPlatform, TrainingRequest, TrainingDataset, TrainingProgress,
  Artifacts, append_log, create_job, start_job, load_dataset, report_progress, should_stop,
  begin_checkpoint, complete_job, fail_job, cancel_job, pump_training_queue, create_rl_training_job,
  cancel_rl_training_job, run_scheduled, continue_worker, end_worker,
}

abbrev pub is_final : JobStatus → Bool
is_final completed = true
is_final failed = true
is_final _ = false

module _ {N P : Type 0} where
  ended :
      (o : Option (TrainingJob N P)) (j : TrainingJob N P) (w s r : ℕ)
      → o ≡ some j
      → is_final j.status ≡ true
      → Fits o w s r
      → w + s + r ≡ 0
  unfolding Fits
  ended none j w s r e f h = h
  ended (some i) j w s r e f h = ground arith

module _ {N P : Type 0} (p : TrainingPlatform N) (l : Limits) where
  -- A request, the next callback, or the next part of one worker's `runJob`. A job may fail in any
  -- stage; it goes on to its checkpoint only if no cancellation was asked for.
  pub data Step : TrainingQueue N P → TrainingQueue N P → Type 0 where
    creates :
        (s : TrainingQueue N P) (uuid : String) (q : TrainingRequest N) (now : ℕ)
        → Step s (create_rl_training_job p l uuid q now s).1
    cancels :
        (s : TrainingQueue N P) (now : ℕ) (id : String) → Step s (cancel_rl_training_job p now id s)
    calls_back : (s : TrainingQueue N P) (now : ℕ) → Step s (run_scheduled p now s)
    loads :
        (s : TrainingQueue N P) (before : List (ℕ × Stage)) (a : ℕ) (after : List (ℕ × Stage))
        (now : ℕ) (d : TrainingDataset N)
        → s.workers ≡ before ++ (a, loading) ∷ after
        → Step s (continue_worker before (a, training) after (load_dataset p now d) s)
    progresses :
        (s : TrainingQueue N P) (before : List (ℕ × Stage)) (a : ℕ) (after : List (ℕ × Stage))
        (now : ℕ) (u : TrainingProgress N)
        → s.workers ≡ before ++ (a, training) ∷ after
        → Step s (continue_worker before (a, training) after (report_progress p now u) s)
    polls :
        (s : TrainingQueue N P) (before : List (ℕ × Stage)) (a : ℕ) (after : List (ℕ × Stage))
        (now : ℕ)
        → s.workers ≡ before ++ (a, training) ∷ after
        → Step s (continue_worker before (a, training) after (λ j. (should_stop p now j).1) s)
    trains :
        (s : TrainingQueue N P) (before : List (ℕ × Stage)) (a : ℕ) (after : List (ℕ × Stage))
        (now : ℕ) (artifacts : Artifacts P) (j : TrainingJob N P)
        → s.workers ≡ before ++ (a, training) ∷ after
        → get_elem? s.heap a ≡ some j
        → j.cancel_requested ≡ false
        → Step s (continue_worker before (a, writing) after (begin_checkpoint p now artifacts) s)
    completes :
        (s : TrainingQueue N P) (before : List (ℕ × Stage)) (a : ℕ) (after : List (ℕ × Stage))
        (now : ℕ)
        → s.workers ≡ before ++ (a, writing) ∷ after
        → Step s (end_worker l before a after (complete_job p now) s)
    fails :
        (s : TrainingQueue N P) (before : List (ℕ × Stage)) (a : ℕ) (after : List (ℕ × Stage))
        (stage : Stage) (now : ℕ) (error : String)
        → s.workers ≡ before ++ (a, stage) ∷ after
        → Step s (end_worker l before a after (fail_job p now error) s)

  pub data Reach (start : TrainingQueue N P) : TrainingQueue N P → Type 0 where
    here : Reach start start
    next : {s s' : TrainingQueue N P} → Reach start s → Step s s' → Reach start s'

  load_dataset-status :
      (now : ℕ) (d : TrainingDataset N) (j : TrainingJob N P)
      → (load_dataset p now d j).status ≡ j.status
  unfolding load_dataset append_log
  load_dataset-status now d j = refl

  report_progress-status :
      (now : ℕ) (u : TrainingProgress N) (j : TrainingJob N P)
      → (report_progress p now u j).status ≡ j.status
  unfolding report_progress append_log
  report_progress-status now u j = ground arith

  should_stop-status : (now : ℕ) (j : TrainingJob N P) → (should_stop p now j).1.status ≡ j.status
  unfolding should_stop
  should_stop-status now j = ground arith

  begin_checkpoint-status :
      (now : ℕ) (a : Artifacts P) (j : TrainingJob N P)
      → (begin_checkpoint p now a j).status ≡ j.status
  unfolding begin_checkpoint append_log
  begin_checkpoint-status now a j = refl

  pub complete_job-status :
      (now : ℕ) (j : TrainingJob N P) → is_over (complete_job p now j).status ≡ true
  unfolding complete_job append_log
  complete_job-status now j = refl

  pub fail_job-status :
      (now : ℕ) (error : String) (j : TrainingJob N P)
      → is_over (fail_job p now error j).status ≡ true
  unfolding fail_job append_log
  fail_job-status now error j = ground arith

  pub Step-Inv : {s s' : TrainingQueue N P} → Step s s' → Inv l s → Inv l s'
  Step-Inv (creates s uuid q now) v = create-Inv p l uuid q now s v
  Step-Inv (cancels s now id) v = cancel-Inv p l now id s v
  Step-Inv (calls_back s now) v = run_scheduled-Inv p l now s v
  Step-Inv (loads s before a after now d e) v =
      continue_worker-Inv l before after a _ _ _ s (load_dataset-status now d) e v
  Step-Inv (progresses s before a after now u e) v =
      continue_worker-Inv l before after a _ _ _ s (report_progress-status now u) e v
  Step-Inv (polls s before a after now e) v =
      continue_worker-Inv l before after a _ _ _ s (should_stop-status now) e v
  Step-Inv (trains s before a after now artifacts j e there asked) v =
      continue_worker-Inv l before after a _ _ _ s (begin_checkpoint-status now artifacts) e v
  Step-Inv (completes s before a after now e) v =
      end_worker-Inv l before after a _ _ s (complete_job-status now) e v
  Step-Inv (fails s before a after stage now error e) v =
      end_worker-Inv l before after a _ _ s (fail_job-status now error) e v

  pub Reach-Inv : {s s' : TrainingQueue N P} → Inv l s → Reach s s' → Inv l s'
  Reach-Inv v here = v
  Reach-Inv v (next r t) = Step-Inv t (Reach-Inv v r)

  -- From a queue in which this holds, whatever steps follow: no more jobs run than the limit, no more
  -- wait than the limit, every slot counted is a job that is scheduled or worked on, and no job waits
  -- while a slot is free.
  pub Reach-bounded :
      (s s' : TrainingQueue N P)
      → Inv l s
      → Reach s s'
      → (s'.running_job_count ≤ l.max_concurrent_jobs)
        × (s'.running_job_count ≡ length s'.scheduled + length s'.workers)
        × (waiting s'.heap s'.pending_jobs ≤ l.max_queued_jobs)
        × ((s'.pending_jobs ≡ []) ⊎ (l.max_concurrent_jobs ≤ s'.running_job_count))
  Reach-bounded s s' v r =
      let v' = Reach-Inv v r in (v'.held.within, v'.held.slots, v'.held.queue, v'.no_free_slot)

  module _ (a : ℕ) (j : TrainingJob N P) (final : is_final j.status ≡ true) where
    -- An ended job is in no list.
    nowhere :
        (s : TrainingQueue N P)
        → Inv l s
        → get_elem? s.heap a ≡ some j
        → times a s.pending_jobs + times a s.scheduled + count_workers a s.workers ≡ 0
    nowhere s v e = ended _ j _ _ _ e final (v.held.placed a)

    kept_by_worker :
        (s : TrainingQueue N P) (before : List (ℕ × Stage)) (b : ℕ) (stage : Stage)
        (after : List (ℕ × Stage)) (f : TrainingJob N P → TrainingJob N P)
        → Inv l s
        → get_elem? s.heap a ≡ some j
        → s.workers ≡ before ++ (b, stage) ∷ after
        → get_elem? (modify b f s.heap) a ≡ some j
    kept_by_worker s before b stage after f v e w =
        get_elem?-modify_other b a f s.heap (λ same. ground (
          arith,
          nowhere s v e,
          ap (count_workers a) w,
          subst
              (λ c.
                count_workers a (before ++ (c, stage) ∷ after)
                ≡ suc (count_workers a (before ++ after)))
              (sym same) (count_workers_self a stage before after),
        ))
        ∙ e

    kept_by_callback :
        (s : TrainingQueue N P) (now : ℕ)
        → Inv l s
        → get_elem? s.heap a ≡ some j
        → get_elem? (run_scheduled p now s).heap a ≡ some j
    unfolding run_scheduled
    kept_by_callback s now v e = elim (List-cases s.scheduled) [
      | inl none_there ↦ ground (arith, none_there, e)
      | inr (b, rest, there) ↦
          let moved : b ≢ a = λ same. ground (
            arith,
            nowhere s v e,
            ap (times a) there,
            subst (λ c. times a (c ∷ rest) ≡ suc (times a rest)) (sym same) (times_self a rest),
          ) in
          ground (arith, there, e, get_elem?-modify_other b a (start_job p now) s.heap moved)
    ]

    kept_by_cancel :
        (s : TrainingQueue N P) (now : ℕ) (id : String)
        → get_elem? s.heap a ≡ some j
        → get_elem? (cancel_rl_training_job p now id s).heap a ≡ some j
    unfolding cancel_rl_training_job cancel_job append_log
    kept_by_cancel s now id e = elim (Option-cases (lookup id s.jobs)) [
      | inl none_there ↦ ground (arith, none_there, e)
      | inr (b, there) ↦ ground (arith, there, e, get_elem?-modify b a (cancel_job p now) s.heap)
    ]

    kept_by_create :
        (s : TrainingQueue N P) (uuid : String) (q : TrainingRequest N) (now : ℕ)
        → get_elem? s.heap a ≡ some j
        → get_elem? (create_rl_training_job p l uuid q now s).1.heap a ≡ some j
    unfolding create_rl_training_job pump_training_queue
    kept_by_create s uuid q now e =
        ground
          (arith, e, get_elem?-append a s.heap (create_job p uuid q now), get_elem?-length s.heap)

    kept_by_end :
        (s : TrainingQueue N P) (before : List (ℕ × Stage)) (b : ℕ) (stage : Stage)
        (after : List (ℕ × Stage)) (f : TrainingJob N P → TrainingJob N P)
        → Inv l s
        → get_elem? s.heap a ≡ some j
        → s.workers ≡ before ++ (b, stage) ∷ after
        → get_elem? (end_worker l before b after f s).heap a ≡ some j
    unfolding end_worker pump_training_queue
    kept_by_end s before b stage after f v e w = kept_by_worker s before b stage after f v e w

    Step-kept :
        {s s' : TrainingQueue N P}
        → Step s s'
        → Inv l s
        → get_elem? s.heap a ≡ some j
        → get_elem? s'.heap a ≡ some j
    unfolding continue_worker
    Step-kept (creates s uuid q now) v e = kept_by_create s uuid q now e
    Step-kept (cancels s now id) v e = kept_by_cancel s now id e
    Step-kept (calls_back s now) v e = kept_by_callback s now v e
    Step-kept (loads s before b after now d w) v e = kept_by_worker s before b _ after _ v e w
    Step-kept (progresses s before b after now u w) v e = kept_by_worker s before b _ after _ v e w
    Step-kept (polls s before b after now w) v e = kept_by_worker s before b _ after _ v e w
    Step-kept (trains s before b after now x i w there asked) v e =
        kept_by_worker s before b _ after _ v e w
    Step-kept (completes s before b after now w) v e = kept_by_end s before b _ after _ v e w
    Step-kept (fails s before b after stage now error w) v e =
        kept_by_end s before b _ after _ v e w

    -- A job that has completed or failed stays as it is, whatever steps follow: it is not run a second
    -- time, and a cancellation does not change it.
    pub Reach-kept :
        (s s' : TrainingQueue N P)
        → Inv l s
        → get_elem? s.heap a ≡ some j
        → Reach s s'
        → get_elem? s'.heap a ≡ some j
    Reach-kept s s' v e here = e
    Reach-kept s s' v e (next r t) = Step-kept t (Reach-Inv v r) (Reach-kept s _ v e r)
