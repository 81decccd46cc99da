-- ===== src/Training/Jobs.antt =====
-- server/rlTrainingJobs.ts: training jobs, one function per step of a job.

use malacca_port_resilience.Prelude.{
  ℕ, zero, suc, ◌-◌, Bool, true, false, not, ◌&&◌, ◌||◌, String, Option, none, some, List, [], ◌∷◌,
  ◌++◌, length, get_last?, Map, Floats, if◌then◌else◌,
}
use Prim.Native.String.{◌++◌ as ◌++ˢ◌}
use text.Mathlib.Text.{◌==◌ as str_eq}

pub data JobStatus : Type 0 where
  queued : JobStatus
  running : JobStatus
  completed : JobStatus
  failed : JobStatus
  cancelled : JobStatus

-- The training parameters that the queue reads.
pub record TrainingRequest (N : Type 0) : Type 0 where
  pub max_episodes : Option N
  pub tuning_trials : Option N
  pub wall_clock_hours : Option N

-- The benchmark, of which the best algorithm is read, and the policies by algorithm.
pub record Artifacts (P : Type 0) : Type 0 where
  pub best_algorithm_id : String
  pub policies : Map P

pub record TrainingProgress (N : Type 0) : Type 0 where
  pub phase : String
  pub progress_percent : N
  pub current_algorithm_id : Option String
  pub completed_episodes : N
  pub total_episodes : N
  pub environment_steps : N
  pub parameter_updates : N
  pub reward_ema : Option N
  pub samples_per_second : N
  pub message : String

-- The fields of the data set that a job reads.
pub record TrainingDataset (N : Type 0) : Type 0 where
  pub id : String
  pub port_id : String
  pub fingerprint : String
  pub train_range : String × String
  pub validation_range : String × String
  pub test_range : String × String
  pub capacity_mode : String
  pub capacity_coverage_percent : N
  pub wind_coverage_percent : N
  pub weather_coverage_percent : N
  pub test_arrival_drift_percent : N

-- Of `result`, which is the artifacts' benchmark, the best algorithm is kept; `dataset` repeats
-- fields of `dataset_internal`.
pub record TrainingJob (N P : Type 0) : Type 0 where
  pub job_id : String
  pub status : JobStatus
  pub phase : String
  pub created_at : String
  pub started_at : Option String
  pub completed_at : Option String
  pub elapsed_ms : ℕ
  pub progress_percent : N
  pub current_algorithm_id : Option String
  pub completed_episodes : N
  pub total_episodes : N
  pub environment_steps : N
  pub parameter_updates : N
  pub reward_ema : Option N
  pub samples_per_second : N
  pub message : String
  pub result : Option String
  pub artifact_path : Option String
  pub logs : List String
  pub error : Option String
  pub request : TrainingRequest N
  pub dataset_internal : Option (TrainingDataset N)
  pub artifacts : Option (Artifacts P)
  pub cancel_requested : Bool
  pub timed_out : Bool
  pub deadline_at_epoch_ms : Option N
  pub started_at_epoch_ms : Option ℕ

-- Numbers and dates as the code uses them: `Math.min`, `Math.max`, `Math.round`, `toISOString`, its
-- characters 11 to 19, and its digits as an id has them.
pub record TrainingPlatform (N : Type 0) : Type 0 where
  pub floats : Floats N
  pub min_of : N → N → N
  pub max_of : N → N → N
  pub round : N → N
  pub iso_string : ℕ → String
  pub clock_text : ℕ → String
  pub id_digits : ℕ → String
  pub encode_uri : String → String
  -- A number in a text template.
  pub show : N → String

abbrev pub with_default {ℓ} : {A : Type ℓ} → A → Option A → A
with_default d none = d
with_default d (some x) = x

abbrev pub drop {ℓ} : {A : Type ℓ} → ℕ → List A → List A
drop zero xs = xs
drop (suc n) [] = []
drop (suc n) (x ∷ xs) = drop n xs

-- `.slice(n)` of a text.
abbrev pub text_from : ℕ → String → String
text_from zero s = s
text_from (suc n) String.[] = ""
text_from (suc n) (String.◌∷◌ c s) = text_from n s

abbrev pub literal : {N : Type 0} → TrainingPlatform N → ℕ → N
literal p n = p.floats.of_ℕ n

abbrev range_text : String × String → String
range_text (a, b) = a ++ˢ " → " ++ˢ b

abbrev says : String → Option String → Bool
says text none = false
says text (some line) = str_eq (text_from 9 line) text

abbrev elapsed : ℕ → Option ℕ → ℕ
elapsed now none = 0
elapsed now (some start) = now - start

module _ {N P : Type 0} (p : TrainingPlatform N) where
  unfoldable pub append_log : ℕ → String → TrainingJob N P → TrainingJob N P
  append_log now text j =
      let lines = j.logs ++ (p.clock_text now ++ˢ " " ++ˢ text) ∷ [] in
      record j { logs = drop (length lines - 80) lines }

  -- Several lines, one after another.
  abbrev pub append_logs : ℕ → List String → TrainingJob N P → TrainingJob N P
  append_logs now [] j = j
  append_logs now (t ∷ ts) j = append_logs now ts (append_log now t j)

  unfoldable pub create_job : String → TrainingRequest N → ℕ → TrainingJob N P
  create_job uuid q now =
      let episodes =
        p.min_of (literal p 5000)
          (p.max_of (literal p 120) (p.round (with_default (literal p 600) q.max_episodes))) in
      let trials =
        p.min_of (literal p 5)
          (p.max_of (literal p 1) (p.round (with_default (literal p 3) q.tuning_trials))) in
      append_log now "训练任务已排队；训练阶段不会生成沙盘渲染帧" (record {
        job_id = "rl-" ++ˢ p.id_digits now ++ˢ "-" ++ˢ uuid;
        status = queued;
        phase = "queued";
        created_at = p.iso_string now;
        started_at = none;
        completed_at = none;
        elapsed_ms = 0;
        progress_percent = literal p 0;
        current_algorithm_id = none;
        completed_episodes = literal p 0;
        total_episodes = p.floats.mul (p.floats.mul episodes (literal p 4)) trials;
        environment_steps = literal p 0;
        parameter_updates = literal p 0;
        reward_ema = none;
        samples_per_second = literal p 0;
        message = "训练任务已排队；训练阶段不会生成沙盘渲染帧";
        result = none;
        artifact_path = none;
        logs = [];
        error = none;
        request = q;
        dataset_internal = none;
        artifacts = none;
        cancel_requested = false;
        timed_out = false;
        deadline_at_epoch_ms = none;
        started_at_epoch_ms = none;
      })

  -- `runJob` up to its first `await`.
  unfoldable pub start_job : ℕ → TrainingJob N P → TrainingJob N P
  start_job now j =
      let hours =
        p.min_of (literal p 24) (
          p.max_of (p.floats.decimal 1 2)
            (with_default (literal p 1) j.request.wall_clock_hours)) in
      append_log now "正在校验训练集字段、时间顺序与训练/验证/最终测试边界" (record j {
        status = running;
        phase = "loading-dataset";
        started_at = some (p.iso_string now);
        started_at_epoch_ms = some now;
        deadline_at_epoch_ms =
            some (p.floats.add (literal p now) (p.floats.mul hours (literal p 3600000)));
        progress_percent = literal p 1;
        message = "正在校验训练集字段、时间顺序与训练/验证/最终测试边界";
      })

  -- The data set has been loaded.
  unfoldable pub load_dataset : ℕ → TrainingDataset N → TrainingJob N P → TrainingJob N P
  load_dataset now d j =
      append_logs now
        (("数据集 " ++ˢ d.id ++ˢ " 校验通过 · SHA256 " ++ˢ d.fingerprint)
          ∷ ("港口 "
              ++ˢ d.port_id
              ++ˢ " · 时间切分：训练 "
              ++ˢ range_text d.train_range
              ++ˢ " / 验证 "
              ++ˢ range_text d.validation_range
              ++ˢ " / 测试 "
              ++ˢ range_text d.test_range)
          ∷ ("数据质量：容量 "
              ++ˢ d.capacity_mode
              ++ˢ " / 覆盖 "
              ++ˢ p.show d.capacity_coverage_percent
              ++ˢ "% · 风速 "
              ++ˢ p.show d.wind_coverage_percent
              ++ˢ "% / 完整气象 "
              ++ˢ p.show d.weather_coverage_percent
              ++ˢ "% · 测试需求漂移 "
              ++ˢ p.show d.test_arrival_drift_percent
              ++ˢ "%")
          ∷ [])
        (record j { dataset_internal = some d; progress_percent = literal p 6 })

  -- `progress`: a message that the last line has already is not logged again.
  unfoldable pub report_progress : ℕ → TrainingProgress N → TrainingJob N P → TrainingJob N P
  report_progress now u j =
      let next = record j {
        phase = u.phase;
        progress_percent = p.min_of (p.floats.decimal 998 1) u.progress_percent;
        current_algorithm_id = u.current_algorithm_id;
        completed_episodes = u.completed_episodes;
        total_episodes = u.total_episodes;
        environment_steps = u.environment_steps;
        parameter_updates = u.parameter_updates;
        reward_ema = u.reward_ema;
        samples_per_second = u.samples_per_second;
        message = u.message;
      } in
      if says u.message (get_last? j.logs) then next else append_log now u.message next

  -- The callback that `trainRlBenchmark` polls: whether to stop, and the job after it.
  unfoldable pub should_stop : ℕ → TrainingJob N P → Bool × TrainingJob N P
  should_stop now j = if j.cancel_requested then (true, j) else elim j.deadline_at_epoch_ms [
    | none ↦ (false, j)
    | some deadline ↦
        if p.floats.le deadline (literal p now) && not (p.floats.eq deadline (literal p 0))
        then (true, record j { timed_out = true })
        else (false, j)
  ]

  -- The training has returned and nobody has asked to cancel.
  unfoldable pub begin_checkpoint : ℕ → Artifacts P → TrainingJob N P → TrainingJob N P
  begin_checkpoint now a j = append_log now "正在写入可复现检查点" (record j {
    artifacts = some a;
    result = some a.best_algorithm_id;
    phase = "checkpointing";
    progress_percent = literal p 99;
    message = "正在写入可复现检查点";
  })

  -- The checkpoint file is in place; `result` is set, from the same artifacts.
  unfoldable pub complete_job : ℕ → TrainingJob N P → TrainingJob N P
  complete_job now j =
      let best = with_default "" j.result in
      let text = "训练完成 · 验证集最优 " ++ˢ best ++ˢ " · 最终测试待显式执行" in
      append_log now text (record j {
        artifact_path = some ("/api/rl/jobs/" ++ˢ p.encode_uri j.job_id ++ˢ "/checkpoint");
        status = completed;
        phase = "completed";
        progress_percent = literal p 100;
        completed_at = some (p.iso_string now);
        elapsed_ms = elapsed now j.started_at_epoch_ms;
        current_algorithm_id = some best;
        message = text;
      })

  unfoldable pub counts_as_cancelled : String → TrainingJob N P → Bool
  counts_as_cancelled error j =
      not j.timed_out && (j.cancel_requested || str_eq error "training cancelled")

  -- `catch (error)`, with the error's message.
  unfoldable pub fail_job : ℕ → String → TrainingJob N P → TrainingJob N P
  fail_job now error j =
      let cancels = counts_as_cancelled error j in
      let reason = if j.timed_out then "training job exceeded its wall-clock timeout" else error in
      let text = if cancels then "训练任务已取消" else "训练失败：" ++ˢ reason in
      append_log now text (record j {
        status = if cancels then cancelled else failed;
        phase = if cancels then "cancelled" else "failed";
        completed_at = some (p.iso_string now);
        elapsed_ms = elapsed now j.started_at_epoch_ms;
        error = if cancels then none else some reason;
        message = text;
      })

  -- `cancelRlTrainingJob` on the job that it finds.
  unfoldable pub cancel_job : ℕ → TrainingJob N P → TrainingJob N P
  cancel_job now j = elim j.status [
    | queued ↦ append_log now "排队中的训练任务已取消" (record j {
      cancel_requested = true;
      status = cancelled;
      phase = "cancelled";
      completed_at = some (p.iso_string now);
      message = "排队中的训练任务已取消";
    })
    | running ↦
        append_log now "已收到取消请求，当前 episode 完成后停止"
          (record j { cancel_requested = true; message = "已收到取消请求，当前 episode 完成后停止" })
    | _ ↦ j
  ]
