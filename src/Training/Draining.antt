-- ===== src/Training/Draining.antt =====
-- Without new requests the queue empties: rounds in which a callback runs or a worker goes on.
use malacca_port_resilience.Prelude.{
  ℕ, zero, suc, ◌+◌, ◌-◌, ◌*◌, ◌≤◌, ◌<◌, ◌≡◌, refl, sym, ap, subst, Bool, true, Option, none, some,
  List, [], ◌∷◌, ◌++◌, length, length-append, get_elem?, arith, ◌⊎◌, inl, inr, String, List-cases,
  Option-cases, Bool-cases, if◌then◌else◌,
}
use malacca_port_resilience.Training.Places.{times, count_workers, Fits, is_over, pump-induct}
use malacca_port_resilience.Training.Invariants.{Inv}
use malacca_port_resilience.Training.Steps.{
  Step, calls_back, loads, trains, completes, fails, Step-Inv, Reach, here, next,
}
use malacca_port_resilience.Training.{
  TrainingJob, Stage, loading, training, writing, TrainingQueue, Limits, TrainingPlatform,
  TrainingDataset, Artifacts, load_dataset, begin_checkpoint, complete_job, fail_job,
  pump_training_queue, run_scheduled, continue_worker, end_worker, modify,
}

-- What the outside does in a round: the time, the error that a worker meets, if any, the data set
-- and the artifacts that it gets otherwise.
pub record Outside (N P : Type 0) : Type 0 where
  pub now : ℕ
  pub failure : Option String
  pub dataset : TrainingDataset N
  pub artifacts : Artifacts P

abbrev pub asked : {N P : Type 0} → Option (TrainingJob N P) → Bool
asked none = true
asked (some j) = j.cancel_requested

abbrev pub rounds_left : Stage → ℕ
rounds_left loading = 3
rounds_left training = 2
rounds_left writing = 1

abbrev workers_left : List (ℕ × Stage) → ℕ
workers_left [] = 0
workers_left ((a, stage) ∷ rest) = rounds_left stage + workers_left rest

-- The rounds that are enough: four for a job that has not started.
unfoldable pub work : {N P : Type 0} → TrainingQueue N P → ℕ
work s = 4 * (length s.pending_jobs + length s.scheduled) + workers_left s.workers

workers_left-append :
    (xs ys : List (ℕ × Stage)) → workers_left (xs ++ ys) ≡ workers_left xs + workers_left ys
workers_left-append [] ys = omega arith
workers_left-append (x ∷ xs) ys = omega (arith, workers_left-append xs ys)

over :
    {N P : Type 0} (o : Option (TrainingJob N P)) (j : TrainingJob N P)
    → o ≡ some j
    → Fits o 0 0 0
    → is_over j.status ≡ true
unfolding Fits
over none j e h = absurd (ground (arith, e))
over (some i) j e h = ground arith

module _ {N P : Type 0} (p : TrainingPlatform N) (l : Limits) where
  -- The first worker goes on with its job, or ends it.
  unfoldable pub work_on :
      Outside N P → ℕ → Stage → List (ℕ × Stage) → TrainingQueue N P → TrainingQueue N P
  work_on o a stage rest s = elim o.failure [
    | some error ↦ end_worker l [] a rest (fail_job p o.now error) s
    | none ↦ elim stage [
      | loading ↦ continue_worker [] (a, training) rest (load_dataset p o.now o.dataset) s
      | training ↦
          if asked (get_elem? s.heap a)
          then end_worker l [] a rest (fail_job p o.now "training cancelled") s
          else continue_worker [] (a, writing) rest (begin_checkpoint p o.now o.artifacts) s
      | writing ↦ end_worker l [] a rest (complete_job p o.now) s
    ]
  ]

  -- One round: the next callback, or else the first worker.
  unfoldable pub serve : Outside N P → TrainingQueue N P → TrainingQueue N P
  serve o s = elim s.scheduled [
    | _ ∷ _ ↦ run_scheduled p o.now s
    | [] ↦ elim s.workers [ [] ↦ s | (a, stage) ∷ rest ↦ work_on o a stage rest s ]
  ]

  unfoldable pub drain : ℕ → (ℕ → Outside N P) → TrainingQueue N P → TrainingQueue N P
  drain zero outside s = s
  drain (suc n) outside s = drain n outside (serve (outside n) s)

  pump-work : (s : TrainingQueue N P) → work (pump_training_queue l s) ≤ work s
  unfolding work pump_training_queue
  pump-work s =
      let (less, _) =
        pump-induct l.max_concurrent_jobs s.heap
          (λ busy scheduled waits.
            length waits + length scheduled ≤ length s.pending_jobs + length s.scheduled)
          (λ busy b scheduled waits room h. ground (arith, h, length-append scheduled (b ∷ [])))
          s.running_job_count s.scheduled s.pending_jobs (omega arith) in
      omega (arith, less)

  end-work :
      (s : TrainingQueue N P) (a : ℕ) (stage : Stage) (rest : List (ℕ × Stage))
      (f : TrainingJob N P → TrainingJob N P)
      → s.workers ≡ (a, stage) ∷ rest
      → work (end_worker l [] a rest f s) < work s
  unfolding work end_worker
  end-work s a stage rest f e = ground (
    arith,
    ap workers_left e,
    pump-work (record s {
      heap = modify a f s.heap;
      workers = rest;
      running_job_count = s.running_job_count - 1;
    }),
  )

  work_on-Step :
      (o : Outside N P) (a : ℕ) (stage : Stage) (rest : List (ℕ × Stage)) (s : TrainingQueue N P)
      → s.workers ≡ (a, stage) ∷ rest
      → Step p l s (work_on o a stage rest s) × (work (work_on o a stage rest s) < work s)
  unfolding work_on work continue_worker
  work_on-Step o a stage rest s e = elim (Option-cases o.failure) [
    | inr (error, f) ↦
        rw f (
          fails s [] a rest stage o.now error e,
          end-work s a stage rest (fail_job p o.now error) e,
        )
    | inl f ↦ rw f (goes_on stage e)
  ]
    where
      goes_on :
          (stage : Stage)
          → s.workers ≡ (a, stage) ∷ rest
          → Step p l s (work_on (record o { failure = none }) a stage rest s)
            × (work (work_on (record o { failure = none }) a stage rest s) < work s)
      goes_on loading e = (loads s [] a rest o.now o.dataset e, omega (arith, ap workers_left e))
      goes_on training e = elim (Option-cases (get_elem? s.heap a)) [
        | inl missing ↦ rw missing (
          fails s [] a rest training o.now "training cancelled" e,
          end-work s a training rest (fail_job p o.now "training cancelled") e,
        )
        | inr (j, there) ↦ elim (Bool-cases j.cancel_requested) [
          | inl cancels ↦
              rw (there, cancels)
                (
                  fails s [] a rest training o.now "training cancelled" e,
                  end-work s a training rest (fail_job p o.now "training cancelled") e,
                )
          | inr free ↦
              rw (there, free)
                (
                  trains s [] a rest o.now o.artifacts j e there free,
                  omega (arith, ap workers_left e),
                )
        ]
      ]
      goes_on writing e =
          (completes s [] a rest o.now e, end-work s a writing rest (complete_job p o.now) e)

  -- Nothing waits, is scheduled or is worked on.
  abbrev pub IsIdle : TrainingQueue N P → Type 0
  IsIdle s = (s.pending_jobs ≡ []) × (s.scheduled ≡ []) × (s.workers ≡ [])

  serve_calls :
      (o : Outside N P) (s : TrainingQueue N P) (a : ℕ) (rest : List ℕ)
      → s.scheduled ≡ a ∷ rest
      → serve o s ≡ run_scheduled p o.now s
  unfolding serve
  serve_calls o s a rest e = ground (arith, e)

  serve_works :
      (o : Outside N P) (s : TrainingQueue N P) (a : ℕ) (stage : Stage) (rest : List (ℕ × Stage))
      → s.scheduled ≡ []
      → s.workers ≡ (a, stage) ∷ rest
      → serve o s ≡ work_on o a stage rest s
  unfolding serve
  serve_works o s a stage rest quiet e = ground (arith, quiet, e)

  serve-Step :
      (o : Outside N P) (s : TrainingQueue N P)
      → Inv l s
      → 1 ≤ l.max_concurrent_jobs
      → (IsIdle s × (serve o s ≡ s)) ⊎ (Step p l s (serve o s) × (work (serve o s) < work s))
  unfolding serve work run_scheduled
  serve-Step o s v positive = elim (List-cases s.scheduled) [
    | inr (a, rest, e) ↦ inr (
      subst (Step p l s) (sym (serve_calls o s a rest e)) (calls_back s o.now),
      ground (arith, e, workers_left-append s.workers ((a, loading) ∷ [])),
    )
    | inl quiet ↦ elim (List-cases s.workers) [
      | inl idle ↦ inl (
        (ground (arith, v.held.slots, v.no_free_slot, quiet, idle), quiet, idle),
        ground (arith, quiet, idle),
      )
      | inr ((a, stage), rest, e) ↦ inr (
          subst (λ s'. Step p l s s' × (work s' < work s))
            (sym (serve_works o s a stage rest quiet e)) (work_on-Step o a stage rest s e))
    ]
  ]

  prepend : {s s' s'' : TrainingQueue N P} → Step p l s s' → Reach p l s' s'' → Reach p l s s''
  prepend t here = next here t
  prepend t (next r u) = next (prepend t r) u

  IsIdle-work : (s : TrainingQueue N P) → work s ≡ 0 → IsIdle s
  unfolding work
  IsIdle-work s h = go s.pending_jobs s.scheduled s.workers (omega arith)
    where
      go :
          (ps ss : List ℕ) (ws : List (ℕ × Stage))
          → 4 * (length ps + length ss) + workers_left ws ≡ 0
          → (ps ≡ []) × (ss ≡ []) × (ws ≡ [])
      go [] [] [] h = (refl, refl, refl)
      go [] [] ((a, loading) ∷ ws) h = absurd (omega arith)
      go [] [] ((a, training) ∷ ws) h = absurd (omega arith)
      go [] [] ((a, writing) ∷ ws) h = absurd (omega arith)
      go [] (x ∷ ss) ws h = absurd (omega arith)
      go (x ∷ ps) ss ws h = absurd (omega arith)

  IsIdle-enough : (s : TrainingQueue N P) (n : ℕ) → IsIdle s → work s ≤ n
  unfolding work
  IsIdle-enough s n (e, e', e'') = ground (arith, e, e', e'')

  over_when_idle :
      (s : TrainingQueue N P)
      → Inv l s
      → IsIdle s
      → (a : ℕ) (j : TrainingJob N P) → get_elem? s.heap a ≡ some j
      → is_over j.status ≡ true
  over_when_idle s v (e, e', e'') a j there = over (get_elem? s.heap a) j there (
      subst (λ ws. Fits (get_elem? s.heap a) 0 0 (count_workers a ws)) e''
        (subst (λ ss. Fits (get_elem? s.heap a) 0 (times a ss) (count_workers a s.workers)) e'
          (subst
            (λ ps.
              Fits (get_elem? s.heap a) (times a ps) (times a s.scheduled)
                (count_workers a s.workers))
            e (v.held.placed a))))

  -- A run from `s` to an idle queue in which every job has ended.
  abbrev pub Drained : TrainingQueue N P → TrainingQueue N P → Type 0
  Drained s s' =
      Reach p l s s'
      × IsIdle s'
      × ((a : ℕ) (j : TrainingJob N P) → get_elem? s'.heap a ≡ some j → is_over j.status ≡ true)

  -- Without new requests, from a queue in which the invariant holds and which may run a job at all:
  -- after as many rounds as there is work, whatever the outside does in them, the queue has come by its
  -- own steps to where no job waits, is scheduled or is worked on, and every job is completed, failed
  -- or cancelled.
  pub drain-IsIdle :
      (n : ℕ) (outside : ℕ → Outside N P) (s : TrainingQueue N P)
      → Inv l s
      → 1 ≤ l.max_concurrent_jobs
      → work s ≤ n
      → Drained s (drain n outside s)
  unfolding drain
  drain-IsIdle zero outside s v positive enough =
      let idle = IsIdle-work s (omega arith) in (here, idle, over_when_idle s v idle)
  drain-IsIdle (suc n) outside s v positive enough = elim (serve-Step (outside n) s v positive) [
    | inl (idle, same) ↦
        subst (λ t. Drained s (drain n outside t)) (sym same)
          (drain-IsIdle n outside s v positive (IsIdle-enough s n idle))
    | inr (t, less) ↦
        let (r, idle, over) = drain-IsIdle n outside _ (Step-Inv p l t v) positive (omega arith) in
        (prepend t r, idle, over)
  ]
