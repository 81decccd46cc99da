-- ===== src/Training.antt =====
-- server/rlTrainingJobs.ts: the training queue.
mod Jobs
pub mod Places
pub mod Invariants
pub mod Requests
pub mod Steps
pub mod Draining
mod Examples
use malacca_port_resilience.Prelude.{
  ℕ, zero, suc, ◌+◌, ◌-◌, min, max, Bool, true, false, not, ◌&&◌, ◌||◌, String, Option, none, some,
  List, [], ◌∷◌, ◌++◌, length, get_elem?, Map, lookup, insert, Result, ok, err, ltb, leb,
  if◌then◌else◌,
}
use Prim.Native.String.{◌++◌ as ◌++ˢ◌}
unfoldable pub use Jobs.*

pub data ℤ : Type 0 where
  pos : ℕ → ℤ
  negsuc : ℕ → ℤ

-- The value is what `Number` reads, when that is an integer.
unfoldable pub bounded_environment_integer : Option ℤ → ℕ → ℕ → ℕ → ℕ
bounded_environment_integer none fallback minimum maximum = fallback
bounded_environment_integer (some (pos n)) fallback minimum maximum = min maximum (max minimum n)
bounded_environment_integer (some (negsuc n)) fallback minimum maximum = min maximum minimum

-- `MAX_CONCURRENT_JOBS` and `MAX_QUEUED_JOBS`.
pub record Limits : Type 0 where
  pub max_concurrent_jobs : ℕ
  pub max_queued_jobs : ℕ

unfoldable pub limits_of : Option ℤ → Option ℤ → Limits
limits_of concurrent waiting = record {
  max_concurrent_jobs = bounded_environment_integer concurrent 1 1 8;
  max_queued_jobs = bounded_environment_integer waiting 20 1 1000;
}

-- Where `runJob` waits: for the data set, for the training, for the checkpoint file.
pub data Stage : Type 0 where
  loading : Stage
  training : Stage
  writing : Stage

-- A job has an address in `heap`, since the map and the queue share the object. `scheduled` are the
-- `setImmediate` callbacks that have not run yet, `workers` the calls of `runJob` that wait.
pub record TrainingQueue (N P : Type 0) : Type 0 where
  pub heap : List (TrainingJob N P)
  pub jobs : Map ℕ
  pub pending_jobs : List ℕ
  pub scheduled : List ℕ
  pub workers : List (ℕ × Stage)
  pub running_job_count : ℕ

-- A change of the object at an address.
abbrev pub modify {ℓ} : {A : Type ℓ} → ℕ → (A → A) → List A → List A
modify a f [] = []
modify zero f (x ∷ xs) = f x ∷ xs
modify (suc a) f (x ∷ xs) = x ∷ modify a f xs

abbrev pub is_queued : JobStatus → Bool
is_queued queued = true
is_queued _ = false

abbrev is_cancelled : JobStatus → Bool
is_cancelled cancelled = true
is_cancelled _ = false

-- The pending jobs with status `queued`.
abbrev pub waiting : {N P : Type 0} → List (TrainingJob N P) → List ℕ → ℕ
waiting heap [] = 0
waiting heap (a ∷ rest) = elim (get_elem? heap a) [
  | none ↦ waiting heap rest
  | some j ↦ if is_queued j.status then suc (waiting heap rest) else waiting heap rest
]

-- Whether `pumpTrainingQueue` passes over the job at an address.
abbrev pub is_dropped : {N P : Type 0} → List (TrainingJob N P) → ℕ → Bool
is_dropped heap a = elim (get_elem? heap a) [
  | none ↦ true
  | some j ↦ is_cancelled j.status || j.cancel_requested
]

abbrev ready :
    {N P : Type 0}
    → JobStatus
    → Option (Artifacts P)
    → Option (TrainingDataset N)
    → Option (Artifacts P × TrainingDataset N)
ready completed (some a) (some d) = some (a, d)
ready _ _ _ = none

module _ {N P : Type 0} where
  -- The loop of `pumpTrainingQueue`, which ends since each round takes a pending job away.
  unfoldable pub pump : ℕ → List (TrainingJob N P) → ℕ → List ℕ → List ℕ → ℕ × List ℕ × List ℕ
  pump limit heap count scheduled [] = (count, scheduled, [])
  pump limit heap count scheduled (a ∷ rest) = elim (ltb count limit) [
    | false ↦ (count, scheduled, a ∷ rest)
    | true ↦
        let skip = is_dropped heap a in
        pump limit heap (if skip then count else count + 1)
          (if skip then scheduled else scheduled ++ a ∷ []) rest
  ]

  unfoldable pub pump_training_queue : Limits → TrainingQueue N P → TrainingQueue N P
  pump_training_queue l s =
      let (count, scheduled, waits) =
        pump l.max_concurrent_jobs s.heap s.running_job_count s.scheduled s.pending_jobs in
      record s { pending_jobs = waits; scheduled = scheduled; running_job_count = count }

  -- `createRlTrainingJob`, which returns the new job's address.
  unfoldable pub create_rl_training_job :
      TrainingPlatform N
      → Limits
      → String
      → TrainingRequest N
      → ℕ
      → TrainingQueue N P
      → Result String ℕ × TrainingQueue N P
  create_rl_training_job p l uuid q now s =
      if leb l.max_queued_jobs (waiting s.heap s.pending_jobs)
      then (err "RlTrainingCapacityError", s)
      else let j = create_job p uuid q now in
        let a = length s.heap in
        (
          ok a,
          pump_training_queue l (record s {
            heap = s.heap ++ j ∷ [];
            jobs = insert j.job_id a s.jobs;
            pending_jobs = s.pending_jobs ++ a ∷ [];
          }),
        )

  -- `getRlTrainingJob`: the object that its snapshot is taken from.
  unfoldable pub get_rl_training_job : String → TrainingQueue N P → Option (TrainingJob N P)
  get_rl_training_job id s = elim (lookup id s.jobs) [ none ↦ none | some a ↦ get_elem? s.heap a ]

  -- `cancelRlTrainingJob`.
  unfoldable pub cancel_rl_training_job :
      TrainingPlatform N → ℕ → String → TrainingQueue N P → TrainingQueue N P
  cancel_rl_training_job p now id s = elim (lookup id s.jobs) [
    | none ↦ s
    | some a ↦ record s { heap = modify a (cancel_job p now) s.heap }
  ]

  -- The next `setImmediate` callback.
  unfoldable pub run_scheduled : TrainingPlatform N → ℕ → TrainingQueue N P → TrainingQueue N P
  run_scheduled p now s = elim s.scheduled [
    | [] ↦ s
    | a ∷ rest ↦ record s {
      heap = modify a (start_job p now) s.heap;
      scheduled = rest;
      workers = s.workers ++ (a, loading) ∷ [];
    }
  ]

  -- One worker, between those before and after it, goes on with its job.
  unfoldable pub continue_worker :
      List (ℕ × Stage)
      → ℕ × Stage
      → List (ℕ × Stage)
      → (TrainingJob N P → TrainingJob N P)
      → TrainingQueue N P
      → TrainingQueue N P
  continue_worker before (a, stage) after step s = record s {
    heap = modify a step s.heap;
    workers = before ++ (a, stage) ∷ after;
  }

  -- A worker has ended its job, and `finally` gives the slot back.
  unfoldable pub end_worker :
      Limits
      → List (ℕ × Stage)
      → ℕ
      → List (ℕ × Stage)
      → (TrainingJob N P → TrainingJob N P)
      → TrainingQueue N P
      → TrainingQueue N P
  end_worker l before a after step s = pump_training_queue l (record s {
    heap = modify a step s.heap;
    workers = before ++ after;
    running_job_count = s.running_job_count - 1;
  })

  -- The guards of `evaluateRlTrainingJob`: the artifacts and the data set that it evaluates on.
  unfoldable pub evaluation_of :
      String → String → TrainingQueue N P → Result String (Artifacts P × TrainingDataset N)
  evaluation_of id algorithm s = elim (get_rl_training_job id s) [
    | none ↦ err "RL 训练任务不存在，或其检查点与当前数据集不兼容"
    | some j ↦ elim (ready j.status j.artifacts j.dataset_internal) [
      | none ↦ err "RL 训练任务尚未完成，不能执行最终测试集回放"
      | some (a, d) ↦ elim (lookup algorithm a.policies) [
        | none ↦ err ("检查点不包含算法 " ++ˢ algorithm)
        | some _ ↦ ok (a, d)
      ]
    ]
  ]
