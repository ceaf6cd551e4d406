-- ===== src/Translation/Dispatcher.antt =====
-- crates/voicesub-translation/src/dispatcher.rs: the state of the translation dispatcher and its
-- operations. Each function is what one holder of the lock does; between two of them other tasks
-- may run. `is_relevant` is the answer of the subtitle lifecycle, handed in.
pub mod Enqueue
pub mod Cancel
pub mod Workers
pub mod Publish
use stream_sub_translator.Common.{
  ℕ, zero, suc, ◌+◌, ◌-◌, ◌≤◌, ◌<◌, Bool, true, false, not, ◌&&◌, ◌||◌, if◌then◌else◌, ltb, leb,
  ◌==◌, Option, none, some, List, [], ◌∷◌, ◌++◌, length, map, keep, any, Text, codes, byte_len, min,
  max,
}
use stream_sub_translator.Translation.Lineage.{Generations, generation, supersede}

pub record QueuedJob : Type 0 where
  pub job_id : ℕ
  pub sequence : ℕ
  pub source_text : Text
  pub source_lang : Text
  pub preview_lineage_key : Option Text
  pub preview_generation : ℕ
  pub submitted_at : ℕ

pub record ActiveTask : Type 0 where
  pub job_id : ℕ
  pub sequence : ℕ
  pub source_lang : Text
  pub source_text_len : ℕ

pub record DispatcherInner : Type 0 where
  pub queue : List QueuedJob
  pub active_jobs : ℕ
  pub active_sequences : List ℕ
  pub active_tasks : List ActiveTask
  pub stopped : Bool
  pub next_job_id : ℕ
  pub preview_lineage : Generations
  pub jobs_cancelled : ℕ
  pub last_runtime_reason : Option Text
  pub queue_latency_ms : Option ℕ

-- `HashSet::contains`, `insert` and `remove` on sequences.
abbrev pub contains : ℕ → List ℕ → Bool
contains n xs = any (λ m. m == n) xs

abbrev pub without : ℕ → List ℕ → List ℕ
without n xs = keep (λ m. not (m == n)) xs

abbrev pub clamp : ℕ → ℕ → ℕ → ℕ
clamp lo hi n = if ltb n lo then lo else if ltb hi n then hi else n

-- The settings, from the values that the configuration holds.
max_concurrent_jobs : Option ℕ → ℕ
max_concurrent_jobs none = 2
max_concurrent_jobs (some v) = clamp 1 8 v

timeout_ms : Option ℕ → ℕ
timeout_ms none = 10_000
timeout_ms (some v) = clamp 1_000 60_000 v

queue_max : Option ℕ → ℕ
queue_max none = 8
queue_max (some v) = clamp 1 64 v

-- The second part of `submit_final`: a new id, and a new generation of the previews.
unfoldable pub allocate_job :
    ℕ → ℕ → Text → Text → Option Text → DispatcherInner → DispatcherInner × QueuedJob
allocate_job now sequence source_text source_lang key inner =
    let (lineage, generation') = supersede key inner.preview_lineage in
    let job_id = inner.next_job_id + 1 in
    (
      record inner { next_job_id = job_id; preview_lineage = lineage },
      record {
        job_id = job_id;
        sequence = sequence;
        source_text = source_text;
        source_lang = source_lang;
        preview_lineage_key = key;
        preview_generation = generation';
        submitted_at = now;
      },
    )

-- `is_preview_superseded`.
unfoldable pub is_preview_superseded : QueuedJob → DispatcherInner → Bool
is_preview_superseded job inner = elim job.preview_lineage_key [
  | none ↦ false
  | some key ↦ ltb job.preview_generation (generation key inner.preview_lineage)
]

-- `queue.remove(index)`.
unfoldable pub remove_at : ℕ → List QueuedJob → Option (QueuedJob × List QueuedJob)
remove_at i [] = none
remove_at zero (j ∷ js) = some (j, js)
remove_at (suc i) (j ∷ js) = elim (remove_at i js) [ none ↦ none | some (k, ks) ↦ some (k, j ∷ ks) ]

-- The index of the first queued job that is not relevant.
unfoldable pub dropped_index : (ℕ → Bool) → List QueuedJob → Option ℕ
dropped_index is_relevant [] = none
dropped_index is_relevant (j ∷ js) = elim (is_relevant j.sequence) [
  | false ↦ some 0
  | true ↦ elim (dropped_index is_relevant js) [ none ↦ none | some i ↦ some (suc i) ]
]

abbrev pub unwrap_or_zero : Option ℕ → ℕ
unwrap_or_zero none = 0
unwrap_or_zero (some n) = n

pub data EnqueueStep : Type 0 where
  pushed : DispatcherInner → EnqueueStep
  dropped : QueuedJob → DispatcherInner → EnqueueStep
  panicked : EnqueueStep

-- One round of `enqueue_job`, under the lock.
unfoldable pub enqueue_step : ℕ → (ℕ → Bool) → QueuedJob → DispatcherInner → EnqueueStep
unfolding remove_at dropped_index
enqueue_step bound is_relevant job inner =
    if ltb (length inner.queue) bound
    then pushed (record inner { queue = inner.queue ++ job ∷ [] })
    else elim (remove_at (unwrap_or_zero (dropped_index is_relevant inner.queue)) inner.queue) [
      | none ↦ panicked
      | some (victim, rest) ↦ dropped victim (record inner {
        queue = rest;
        jobs_cancelled = inner.jobs_cancelled + 1;
        last_runtime_reason = some (codes "cancelled:queue_overflow");
      })
    ]

-- The worker takes a job from the queue, if it may.
may_take : ℕ → DispatcherInner → Bool
may_take max_concurrent inner = not inner.stopped && ltb inner.active_jobs max_concurrent

unfoldable pub take : ℕ → ℕ → DispatcherInner → DispatcherInner × Option QueuedJob
unfolding may_take
take now max_concurrent inner = elim inner.queue [
  | [] ↦ (inner, none)
  | job ∷ rest ↦
      if may_take max_concurrent inner
      then (
        record inner {
          queue = rest;
          active_jobs = inner.active_jobs + 1;
          queue_latency_ms = some (now - job.submitted_at);
        },
        some job,
      )
      else (inner, none)
]

abbrev pub task_of : QueuedJob → ActiveTask
task_of job = record {
  job_id = job.job_id;
  sequence = job.sequence;
  source_lang = job.source_lang;
  source_text_len = byte_len job.source_text;
}

-- It registers the job as a task, and clears the last reason once the task is spawned.
unfoldable pub register : QueuedJob → DispatcherInner → DispatcherInner
register job inner = record inner {
  active_sequences = job.sequence ∷ without job.sequence inner.active_sequences;
  active_tasks = inner.active_tasks ++ task_of job ∷ [];
  last_runtime_reason = none;
}

-- The end of a spawned task, after `run_job`.
unfoldable pub finish : ℕ → ℕ → DispatcherInner → DispatcherInner
finish job_id sequence inner =
    let still_active = any (λ task. task.job_id == job_id) inner.active_tasks in
    record inner {
      active_jobs = if still_active then inner.active_jobs - 1 else inner.active_jobs;
      active_tasks =
          if still_active
          then keep (λ task. not (task.job_id == job_id) && not (task.sequence == sequence))
              inner.active_tasks
          else inner.active_tasks;
      active_sequences = without sequence inner.active_sequences;
    }

unfoldable pub stop : DispatcherInner → DispatcherInner
stop inner = record inner {
  stopped = true;
  queue = [];
  active_tasks = [];
  active_jobs = inner.active_jobs - length inner.active_tasks;
}

unfoldable pub start : DispatcherInner → DispatcherInner
start inner = record inner { stopped = false }

abbrev pub job_sequences : List QueuedJob → List ℕ
job_sequences = map (λ job. job.sequence)

abbrev pub task_sequences : List ActiveTask → List ℕ
task_sequences = map (λ task. task.sequence)

-- `cancel_older_than`: the sequences to cancel, of the queue and then of the tasks ...
unfoldable pub cancel_sequences : (ℕ → Bool) → ℕ → DispatcherInner → List ℕ
cancel_sequences is_relevant sequence inner =
    keep (λ s. not (is_relevant s)) (keep (λ s. ltb s sequence) (job_sequences inner.queue))
    ++ keep (λ s. not (is_relevant s))
        (keep (λ s. ltb s sequence) (task_sequences inner.active_tasks))

-- ... and their removal from the queue and the tasks, under the lock.
cancel_apply : List ℕ → DispatcherInner → DispatcherInner
cancel_apply cancelled inner =
    let queue' = keep (λ job. not (contains job.sequence cancelled)) inner.queue in
    let tasks' = keep (λ task. not (contains task.sequence cancelled)) inner.active_tasks in
    let removed = length inner.queue - length queue' in
    let aborted = length inner.active_tasks - length tasks' in
    record inner {
      queue = queue';
      active_tasks = tasks';
      active_sequences =
          keep
            (λ s. not (any (λ task. task.sequence == s && contains s cancelled) inner.active_tasks))
            inner.active_sequences;
      active_jobs = inner.active_jobs - aborted;
      jobs_cancelled = inner.jobs_cancelled + removed + aborted;
      last_runtime_reason =
          if ltb 0 aborted
          then some (codes "cancelled:active_job_replaced")
          else if ltb 0 removed
          then some (codes "cancelled:replaced_by_newer_sequence")
          else inner.last_runtime_reason;
    }

-- `cancel_older_than`, with nothing between its two parts.
unfoldable pub cancel_all : List ℕ → DispatcherInner → DispatcherInner
unfolding cancel_apply
cancel_all [] inner = inner
cancel_all (s ∷ ss) inner = cancel_apply (s ∷ ss) inner

unfoldable pub cancel_older_than : (ℕ → Bool) → ℕ → DispatcherInner → DispatcherInner
unfolding cancel_sequences cancel_all
cancel_older_than is_relevant sequence inner =
    cancel_all (cancel_sequences is_relevant sequence inner) inner
