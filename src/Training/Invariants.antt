-- ===== src/Training/Invariants.antt =====
-- What every operation of the queue keeps: slots and waiting places within their limits, no slot free
-- while a job waits, and each job in one place at most.
use malacca_port_resilience.Prelude.{
  ℕ, ◌+◌, ◌≤◌, ◌≡◌, ap, true, false, List, [], ◌∷◌, ◌++◌, length, length-append, get_elem?, arith,
  if◌then◌else◌, inl, inr, Option-cases, ◌⊎◌,
}
use malacca_port_resilience.Training.Places.{
  times, count_workers, times-append, get_elem?-modify, Fits, Placed, pump-induct, is_over, at_each,
  Fits-worked, Fits-ended, get_elem?-modify_self, get_elem?-modify_other, count_workers_self,
  count_workers_other,
}
use malacca_port_resilience.Training.{
  TrainingJob, Stage, TrainingQueue, Limits, modify, is_dropped, waiting, is_queued,
  pump_training_queue, continue_worker, end_worker,
}

module _ {N P : Type 0} where
  pub waiting-modify :
      (a : ℕ) (f : TrainingJob N P → TrainingJob N P) (heap : List (TrainingJob N P)) (ps : List ℕ)
      → ((j : TrainingJob N P) → is_queued j.status ≡ false → is_queued (f j).status ≡ false)
      → waiting (modify a f heap) ps ≤ waiting heap ps
  waiting-modify a f heap [] keep = omega arith
  waiting-modify a f heap (b ∷ ps) keep = elim (Option-cases (get_elem? heap b)) [
    | inl e ↦ ground (arith, e, get_elem?-modify a b f heap, waiting-modify a f heap ps keep)
    | inr (j, e) ↦
        ground (arith, e, get_elem?-modify a b f heap, waiting-modify a f heap ps keep, keep j)
  ]

  -- What the queue keeps while the pump has not run yet.
  pub record Held (l : Limits) (s : TrainingQueue N P) : Type 0 where
    pub slots : s.running_job_count ≡ length s.scheduled + length s.workers
    pub within : s.running_job_count ≤ l.max_concurrent_jobs
    pub queue : waiting s.heap s.pending_jobs ≤ l.max_queued_jobs
    pub placed : Placed s

  -- What the queue keeps between two steps: no slot is free while a job waits.
  pub record Inv (l : Limits) (s : TrainingQueue N P) : Type 0 where
    pub held : Held l s
    pub no_free_slot : (s.pending_jobs ≡ []) ⊎ (l.max_concurrent_jobs ≤ s.running_job_count)

  dropped-Fits :
      (heap : List (TrainingJob N P)) (b : ℕ) (waits scheduled : List ℕ) (a r : ℕ)
      → Fits (get_elem? heap a) (times a (b ∷ waits)) (times a scheduled) r
      → Fits
          (get_elem? heap a)
          (times a waits)
          (times a (if is_dropped heap b then scheduled else scheduled ++ b ∷ []))
          r
  unfolding Fits
  dropped-Fits heap b waits scheduled a r h = ground (arith, times-append a scheduled (b ∷ []))

  pub pump-Inv : (l : Limits) (s : TrainingQueue N P) → Held l s → Inv l (pump_training_queue l s)
  unfolding pump_training_queue
  pump-Inv l s h =
      let (held, free) =
        pump-induct l.max_concurrent_jobs s.heap
          (λ busy scheduled waits.
            Held l
              (record s { pending_jobs = waits; scheduled = scheduled; running_job_count = busy }))
          (λ busy b scheduled waits room v. record {
            slots = ground (arith, v.slots, length-append scheduled (b ∷ []));
            within = ground (arith, v.within);
            queue = ground (arith, v.queue);
            placed = λ a.
                dropped-Fits s.heap b waits scheduled a (count_workers a s.workers) (v.placed a);
          })
          s.running_job_count s.scheduled s.pending_jobs h in
      record { held = held; no_free_slot = free }

  pub continue_worker-Inv :
      (l : Limits) (before after : List (ℕ × Stage)) (a : ℕ) (old new : Stage)
      (f : TrainingJob N P → TrainingJob N P) (s : TrainingQueue N P)
      → ((j : TrainingJob N P) → (f j).status ≡ j.status)
      → s.workers ≡ before ++ (a, old) ∷ after
      → Inv l s
      → Inv l (continue_worker before (a, new) after f s)
  unfolding continue_worker
  continue_worker-Inv l before after a old new f s keep e v = record {
    held = record {
      slots = omega (
        arith,
        v.held.slots,
        ap length e,
        length-append before ((a, old) ∷ after),
        length-append before ((a, new) ∷ after),
      );
      within = v.held.within;
      queue = omega (
        arith,
        v.held.queue,
        waiting-modify a f s.heap s.pending_jobs (λ j q. ground (arith, keep j, q)),
      );
      placed =
          at_each _ a
            (rw (get_elem?-modify_self a f s.heap, count_workers_self a new before after)
              (Fits-worked _ f _ _ _ keep
                (rw (← count_workers_self a old before after) (rw (← e) (v.held.placed a)))))
            (λ b n.
              rw
                (
                  get_elem?-modify_other a b f s.heap n,
                  count_workers_other a b new before after n,
                  ← count_workers_other a b old before after n,
                )
                (rw (← e) (v.held.placed b)));
    };
    no_free_slot = v.no_free_slot;
  }

  pub end_worker-Inv :
      (l : Limits) (before after : List (ℕ × Stage)) (a : ℕ) (old : Stage)
      (f : TrainingJob N P → TrainingJob N P) (s : TrainingQueue N P)
      → ((j : TrainingJob N P) → is_over (f j).status ≡ true)
      → s.workers ≡ before ++ (a, old) ∷ after
      → Inv l s
      → Inv l (end_worker l before a after f s)
  unfolding end_worker
  end_worker-Inv l before after a old f s over e v = pump-Inv l _ (record {
    slots = omega (
      arith,
      v.held.slots,
      ap length e,
      length-append before ((a, old) ∷ after),
      length-append before after,
    );
    within = omega (arith, v.held.within);
    queue = omega (
      arith,
      v.held.queue,
      waiting-modify a f s.heap s.pending_jobs (λ j q. ground (arith, over j, q)),
    );
    placed =
        at_each _ a
          (rw (get_elem?-modify_self a f s.heap) (
            Fits-ended _ f _ _ _ over
              (rw (← count_workers_self a old before after) (rw (← e) (v.held.placed a)))))
          (λ b n.
            rw (get_elem?-modify_other a b f s.heap n, ← count_workers_other a b old before after n)
              (rw (← e) (v.held.placed b)));
  })
