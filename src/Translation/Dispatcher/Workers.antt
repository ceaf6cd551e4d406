-- ===== src/Translation/Dispatcher/Workers.antt =====
-- crates/voicesub-translation/src/dispatcher.rs: the worker loop, the spawned tasks and the callers of
-- `start`, `stop`, `submit_final` and `cancel_older_than` as a step relation. Each step is what one
-- task does while it holds the lock, and any task may come next.
pub mod Slots
pub mod Safety
pub mod Leaks
use stream_sub_translator.Common.{
  ℕ, suc, ◌+◌, ◌≤◌, ◌<◌, ◌≡◌, Bool, true, false, Option, none, some, List, [], ◌∷◌, ◌++◌, length,
  Text,
}
use stream_sub_translator.Translation.Dispatcher.{
  QueuedJob, ActiveTask, DispatcherInner, EnqueueStep, pushed, dropped, allocate_job, enqueue_step,
  take, register, finish, stop, start, cancel_all,
}

-- A handle of a worker and where its loop stands. `exited`: the loop saw `stopped` and returned, and
-- the handle is still there.
pub data Worker : Type 0 where
  absent : Worker
  looping : Worker
  holding : QueuedJob → Worker
  exited : Worker

-- `worker`: `inner.worker`. `aborted`: the workers that a stop has aborted. Such a loop runs on until an
-- await that is pending, and may meanwhile do what a worker does, beside a new one.
-- `pending`: the jobs of callers of `submit_final` that are inside `enqueue_job`.
pub record System : Type 0 where
  pub inner : DispatcherInner
  pub worker : Worker
  pub aborted : List Worker
  pub pending : List QueuedJob

-- `ensure_worker_locked`.
abbrev pub ensure_worker : Worker → Worker
ensure_worker absent = looping
ensure_worker w = w

-- The jobs that the worker has taken and not yet registered.
abbrev pub held : Worker → ℕ
held (holding job) = 1
held w = 0

-- The same of several workers.
abbrev pub held_all : List Worker → ℕ
held_all [] = 0
held_all (w ∷ ws) = held w + held_all ws

-- A step of the loop of a worker, which is aborted or not.
pub data LoopStep (max_concurrent : ℕ) (inner : DispatcherInner) (worker : Worker)
    : DispatcherInner → Worker → Type 0 where
  exits :
      worker ≡ looping → inner.stopped ≡ true → LoopStep max_concurrent inner worker inner exited
  takes :
      (now limit : ℕ) (job : QueuedJob) (inner' : DispatcherInner)
      → limit ≤ max_concurrent
      → worker ≡ looping
      → take now limit inner ≡ (inner', some job)
      → LoopStep max_concurrent inner worker inner' (holding job)
  registers :
      (job : QueuedJob)
      → worker ≡ holding job
      → LoopStep max_concurrent inner worker (register job inner) looping

-- `max_concurrent` and `bound` are the largest values that the settings take.
pub data Step (max_concurrent bound : ℕ) (s : System) : System → Type 0 where
  starts :
      Step max_concurrent bound s
        (record s { inner = start s.inner; worker = ensure_worker s.worker })
  stops :
      Step max_concurrent bound s
        (record s { inner = stop s.inner; worker = absent; aborted = s.worker ∷ s.aborted })
  allocates :
      (now sequence : ℕ) (text lang : Text) (key : Option Text)
      → s.inner.stopped ≡ false
      → Step max_concurrent bound s (record s {
        inner = (allocate_job now sequence text lang key s.inner).0;
        pending = (allocate_job now sequence text lang key s.inner).1 ∷ s.pending;
      })
  enqueues :
      (limit : ℕ) (is_relevant : ℕ → Bool) (job : QueuedJob) (before after : List QueuedJob)
      (inner' : DispatcherInner)
      → limit ≤ bound
      → s.pending ≡ before ++ job ∷ after
      → enqueue_step limit is_relevant job s.inner ≡ pushed inner'
      → Step max_concurrent bound s (record s { inner = inner'; pending = before ++ after })
  drops :
      (limit : ℕ) (is_relevant : ℕ → Bool) (job victim : QueuedJob) (before after : List QueuedJob)
      (inner' : DispatcherInner)
      → limit ≤ bound
      → s.pending ≡ before ++ job ∷ after
      → enqueue_step limit is_relevant job s.inner ≡ dropped victim inner'
      → Step max_concurrent bound s (record s { inner = inner' })
  spawns : Step max_concurrent bound s (record s { worker = ensure_worker s.worker })
  cancels :
      (sequences : List ℕ)
      → Step max_concurrent bound s (record s { inner = cancel_all sequences s.inner })
  works :
      (inner' : DispatcherInner) (worker' : Worker)
      → LoopStep max_concurrent s.inner s.worker inner' worker'
      → Step max_concurrent bound s (record s { inner = inner'; worker = worker' })
  works_on :
      (worker worker' : Worker) (before after : List Worker) (inner' : DispatcherInner)
      → s.aborted ≡ before ++ worker ∷ after
      → LoopStep max_concurrent s.inner worker inner' worker'
      → Step max_concurrent bound s
          (record s { inner = inner'; aborted = before ++ worker' ∷ after })
  ends :
      (worker : Worker) (before after : List Worker)
      → s.aborted ≡ before ++ worker ∷ after
      → Step max_concurrent bound s (record s { aborted = before ++ after })
  finishes :
      (job_id sequence : ℕ)
      → Step max_concurrent bound s (record s { inner = finish job_id sequence s.inner })

pub data Reach (max_concurrent bound : ℕ) (s : System) : System → Type 0 where
  here : Reach max_concurrent bound s s
  next :
      {t u : System}
      → Reach max_concurrent bound s t
      → Step max_concurrent bound t u
      → Reach max_concurrent bound s u

-- `with_callbacks`.
abbrev pub initial : System
initial = record {
  inner = record {
    queue = [];
    active_jobs = 0;
    active_sequences = [];
    active_tasks = [];
    stopped = false;
    next_job_id = 0;
    preview_lineage = [];
    jobs_cancelled = 0;
    last_runtime_reason = none;
    queue_latency_ms = none;
  };
  worker = absent;
  aborted = [];
  pending = [];
}
