-- ===== src/Training/Examples.antt =====
-- The queue's theorems at concrete queues, and runs of the queue.
use malacca_port_resilience.Prelude.{
  ℕ, ◌+◌, ◌≤◌, ◌≡◌, refl, none, some, List, [], ◌∷◌, length, get_elem?, arith, ◌⊎◌, inl, lookup,
  insert, ◌==◌, if◌then◌else◌, min, max, ◌/◌, ◌*◌,
}
use malacca_port_resilience.Samples.{thousandths}
use malacca_port_resilience.Training.Places.{Fits}
use malacca_port_resilience.Training.Invariants.{Inv}
use malacca_port_resilience.Training.Steps.{
  Step-Inv, Reach-Inv, creates, cancels, here, next, Reach-bounded, Reach-kept,
}
use malacca_port_resilience.Training.Draining.{
  Outside, drain, serve, work, work_on, Drained, drain-IsIdle,
}
use malacca_port_resilience.Training.{
  JobStatus, running, completed, failed, cancelled, TrainingJob, TrainingQueue, Limits, limits_of,
  bounded_environment_integer, TrainingPlatform, TrainingRequest, TrainingDataset, waiting, pos,
  negsuc, append_log, create_job, start_job, load_dataset, complete_job, fail_job, cancel_job, pump,
  pump_training_queue, create_rl_training_job, cancel_rl_training_job, run_scheduled,
  continue_worker, end_worker, counts_as_cancelled,
}

abbrev platform : TrainingPlatform ℕ
platform = record {
  floats = thousandths;
  min_of = min;
  max_of = max;
  round = λ x. x / 1000 * 1000;
  iso_string = λ _. "2026-01-01T00:00:00.000Z";
  clock_text = λ _. "00:00:00";
  id_digits = λ _. "20260101000000";
  encode_uri = λ s. s;
  show = λ _. "0";
}

abbrev limits : Limits
limits = limits_of none (some (pos 2))

limits_clamped :
    limits_of (some (pos 50)) (some (negsuc 3))
    ≡ record { max_concurrent_jobs = 8; max_queued_jobs = 1 }
unfolding limits_of bounded_environment_integer
limits_clamped = refl

abbrev empty : TrainingQueue ℕ ℕ
empty = record {
  heap = [];
  jobs = [];
  pending_jobs = [];
  scheduled = [];
  workers = [];
  running_job_count = 0;
}

abbrev request : TrainingRequest ℕ
request = record { max_episodes = none; tuning_trials = none; wall_clock_hours = none }

empty-Inv : Inv limits empty
unfolding Fits limits_of bounded_environment_integer
empty-Inv = record {
  held = record { slots = refl; within = omega arith; queue = omega arith; placed = λ a. refl };
  no_free_slot = inl refl;
}

abbrev one : TrainingQueue ℕ ℕ
one = (create_rl_training_job platform limits "a" request 0 empty).1

abbrev two : TrainingQueue ℕ ℕ
two = (create_rl_training_job platform limits "b" request 1 one).1

-- One job is scheduled and one waits.
Reach-bounded_example :
    (two.running_job_count ≤ 1)
    × (two.running_job_count ≡ length two.scheduled + length two.workers)
    × (waiting two.heap two.pending_jobs ≤ 2)
    × ((two.pending_jobs ≡ []) ⊎ (1 ≤ two.running_job_count))
unfolding limits_of bounded_environment_integer
Reach-bounded_example =
    Reach-bounded platform limits empty two empty-Inv
      (next (next here (creates empty "a" request 0)) (creates one "b" request 1))

abbrev dataset : TrainingDataset ℕ
dataset = record {
  id = "d";
  port_id = "p";
  fingerprint = "f";
  train_range = ("a", "b");
  validation_range = ("b", "c");
  test_range = ("c", "d");
  capacity_mode = "observed";
  capacity_coverage_percent = 0;
  wind_coverage_percent = 0;
  weather_coverage_percent = 0;
  test_arrival_drift_percent = 0;
}

-- The training succeeds in every round but the second last, in which a file cannot be written.
abbrev outside : ℕ → Outside ℕ ℕ
outside n = record {
  now = n;
  failure = if n == 1 then some "ENOSPC" else none;
  dataset = dataset;
  artifacts = record { best_algorithm_id = "sarsa"; policies = [] };
}

two-Inv : Inv limits two
two-Inv =
    Step-Inv platform limits (creates one "b" request 1)
      (Step-Inv platform limits (creates empty "a" request 0) empty-Inv)

drain-IsIdle_example : Drained platform limits two (drain platform limits 8 outside two)
unfolding limits_of bounded_environment_integer work create_rl_training_job pump_training_queue pump
    create_job append_log
drain-IsIdle_example =
    drain-IsIdle platform limits 8 outside two two-Inv (omega arith) (omega arith)

abbrev statuses : List (TrainingJob ℕ ℕ) → List JobStatus
statuses [] = []
statuses (j ∷ js) = j.status ∷ statuses js

drained_statuses : statuses (drain platform limits 8 outside two).heap ≡ completed ∷ failed ∷ []
unfolding limits_of drain serve create_rl_training_job bounded_environment_integer
    pump_training_queue pump create_job append_log run_scheduled work_on continue_worker
    load_dataset start_job end_worker complete_job fail_job counts_as_cancelled
drained_statuses = refl

abbrev drained : TrainingQueue ℕ ℕ
drained = drain platform limits 8 outside two

drained-Inv : Inv limits drained
drained-Inv = Reach-Inv platform limits two-Inv drain-IsIdle_example.0

abbrev first_or : TrainingJob ℕ ℕ → List (TrainingJob ℕ ℕ) → TrainingJob ℕ ℕ
first_or j [] = j
first_or j (i ∷ is) = i

abbrev first_job : TrainingJob ℕ ℕ
first_job = first_or (create_job platform "a" request 0) drained.heap

abbrev third : TrainingQueue ℕ ℕ
third = (create_rl_training_job platform limits "c" request 9 drained).1

-- The first job has completed; a third one is created, and the first is cancelled.
Reach-kept_example :
    get_elem? (cancel_rl_training_job platform 10 first_job.job_id third).heap 0 ≡ some first_job
unfolding drain serve create_rl_training_job limits_of bounded_environment_integer
    pump_training_queue pump create_job append_log run_scheduled work_on continue_worker
    load_dataset start_job end_worker complete_job
Reach-kept_example =
    Reach-kept platform limits 0 first_job refl drained _ drained-Inv refl
      (next (next here (creates drained "c" request 9)) (cancels third 10 first_job.job_id))

-- A job that is cancelled between the pump and the callback is run all the same.
abbrev cancelled_one : TrainingQueue ℕ ℕ
cancelled_one = cancel_rl_training_job platform 5 "rl-20260101000000-a" one

cancelled_then_run :
    (statuses cancelled_one.heap ≡ cancelled ∷ [])
    × (statuses (run_scheduled platform 6 cancelled_one).heap ≡ running ∷ [])
unfolding limits_of cancel_rl_training_job lookup create_rl_training_job bounded_environment_integer
    pump_training_queue insert create_job append_log cancel_job run_scheduled pump start_job
cancelled_then_run = (refl, refl)
