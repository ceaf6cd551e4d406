-- ===== src/Translation/Dispatcher/Workers/Safety.antt =====
-- crates/voicesub-translation/src/dispatcher.rs: whatever the interleaving, no more jobs run than the
-- configuration allows, and the queue stays within its bound.
use stream_sub_translator.Common.{
  ℕ, suc, ◌≤◌, ◌≡◌, ap, zero, Option-cases, Bool, not, some, List, [], ◌∷◌, length, length-append,
  length-keep-le, arith, inl, inr,
}
use stream_sub_translator.Translation.Dispatcher.{
  QueuedJob, DispatcherInner, pushed, dropped, remove_at, dropped_index, unwrap_or_zero, contains,
  allocate_job, enqueue_step, take, register, finish, stop, start, cancel_all,
}
use stream_sub_translator.Translation.Dispatcher.Cancel.{cancel_all-Applied}
use stream_sub_translator.Translation.Dispatcher.Workers.{
  System, Worker, LoopStep, exits, takes, registers, Step, starts, stops, allocates, enqueues,
  drops, spawns, cancels, works, works_on, ends, finishes, Reach, here, next, initial,
}
use stream_sub_translator.Translation.Dispatcher.Workers.Slots.{used, Step-Lost}

-- What every reachable state satisfies: the slots in use are counted, the count is within the limit,
-- and the queue within its bound.
pub record IsSafe (max_concurrent bound : ℕ) (s : System) : Type 0 where
  pub used_counted : used s ≤ s.inner.active_jobs
  pub limited : s.inner.active_jobs ≤ max_concurrent
  pub queue_bounded : length s.inner.queue ≤ bound

-- The limits on the count and on the queue.
abbrev Fits : ℕ → ℕ → DispatcherInner → Type 0
Fits max_concurrent bound inner =
    (inner.active_jobs ≤ max_concurrent) × (length inner.queue ≤ bound)

pushed-Fits :
    (max_concurrent bound limit : ℕ) (is_relevant : ℕ → Bool) (job : QueuedJob)
    (inner inner' : DispatcherInner)
    → limit ≤ bound
    → enqueue_step limit is_relevant job inner ≡ pushed inner'
    → Fits max_concurrent bound inner
    → Fits max_concurrent bound inner'
unfolding enqueue_step
pushed-Fits max_concurrent bound limit is_relevant job inner inner' h e f =
    ground (arith, length-append inner.queue (job ∷ []))

remove_at-length :
    (i : ℕ) (js ks : List QueuedJob) (k : QueuedJob)
    → remove_at i js ≡ some (k, ks)
    → length ks ≤ length js
unfolding remove_at
remove_at-length i [] ks k e = absurd (ground arith)
remove_at-length zero (j ∷ js) ks k e = ground arith
remove_at-length (suc i) (j ∷ js) ks k e = elim (Option-cases (remove_at i js)) [
  | inl gone ↦ absurd (ground arith)
  | inr ((k', ks'), f) ↦ ground (arith, remove_at-length i js ks' k' f)
]

dropped-Fits :
    (max_concurrent bound limit : ℕ) (is_relevant : ℕ → Bool) (job victim : QueuedJob)
    (inner inner' : DispatcherInner)
    → enqueue_step limit is_relevant job inner ≡ dropped victim inner'
    → Fits max_concurrent bound inner
    → Fits max_concurrent bound inner'
unfolding enqueue_step
dropped-Fits max_concurrent bound limit is_relevant job victim inner inner' e f =
    elim (Option-cases
      (remove_at (unwrap_or_zero (dropped_index is_relevant inner.queue)) inner.queue)) [
        | inl gone ↦ absurd (ground arith)
        | inr ((k, ks), r) ↦ ground (
          arith,
          remove_at-length (unwrap_or_zero (dropped_index is_relevant inner.queue)) inner.queue ks k
              r,
        )
      ]

take-Fits :
    (max_concurrent bound now limit : ℕ) (job : QueuedJob) (inner inner' : DispatcherInner)
    → limit ≤ max_concurrent
    → take now limit inner ≡ (inner', some job)
    → Fits max_concurrent bound inner
    → Fits max_concurrent bound inner'
unfolding take
take-Fits max_concurrent bound now limit job inner inner' h e f = ground arith

cancel_all-Fits :
    (max_concurrent bound : ℕ) (c : List ℕ) (inner : DispatcherInner)
    → Fits max_concurrent bound inner
    → Fits max_concurrent bound (cancel_all c inner)
cancel_all-Fits max_concurrent bound c inner f =
    let a = cancel_all-Applied c inner in
    (
      omega (arith, a.slots),
      omega (
        arith,
        ap length a.queue_kept,
        length-keep-le (λ (job : QueuedJob). not (contains job.sequence c)) inner.queue,
      ),
    )

finish-Fits :
    (max_concurrent bound job_id sequence : ℕ) (inner : DispatcherInner)
    → Fits max_concurrent bound inner
    → Fits max_concurrent bound (finish job_id sequence inner)
unfolding finish
finish-Fits max_concurrent bound job_id sequence inner f = ground arith

loop-Fits :
    {max_concurrent : ℕ} {inner inner' : DispatcherInner} {w w' : Worker} (bound : ℕ)
    → LoopStep max_concurrent inner w inner' w'
    → Fits max_concurrent bound inner
    → Fits max_concurrent bound inner'
unfolding register
loop-Fits bound (exits w stopped) f = f
loop-Fits {max_concurrent = mc} {inner = inner} bound (takes now limit job inner' h w e) f =
    take-Fits mc bound now limit job inner inner' h e f
loop-Fits bound (registers job w) f = f

Step-Fits :
    {max_concurrent bound : ℕ} {s t : System}
    → Step max_concurrent bound s t
    → Fits max_concurrent bound s.inner
    → Fits max_concurrent bound t.inner
unfolding start stop allocate_job
Step-Fits starts f = f
Step-Fits stops f = omega arith
Step-Fits (allocates now sequence text lang key running) f = f
Step-Fits {max_concurrent = mc} {bound = b} {s = s}
      (enqueues limit is_relevant job before after inner' h p e) f =
    pushed-Fits mc b limit is_relevant job s.inner inner' h e f
Step-Fits {max_concurrent = mc} {bound = b} {s = s}
      (drops limit is_relevant job victim before after inner' h p e) f =
    dropped-Fits mc b limit is_relevant job victim s.inner inner' e f
Step-Fits spawns f = f
Step-Fits {max_concurrent = mc} {bound = b} {s = s} (cancels sequences) f =
    cancel_all-Fits mc b sequences s.inner f
Step-Fits {bound = b} (works inner' w' step) f = loop-Fits b step f
Step-Fits {bound = b} (works_on w w' before after inner' e step) f = loop-Fits b step f
Step-Fits (ends w before after e) f = f
Step-Fits {max_concurrent = mc} {bound = b} {s = s} (finishes job_id sequence) f =
    finish-Fits mc b job_id sequence s.inner f

Step-IsSafe :
    {max_concurrent bound : ℕ} {s t : System}
    → Step max_concurrent bound s t
    → IsSafe max_concurrent bound s
    → IsSafe max_concurrent bound t
Step-IsSafe step h =
    let f = Step-Fits step (h.limited, h.queue_bounded) in
    record {
      used_counted = omega (arith, Step-Lost 0 step (omega arith));
      limited = f.0;
      queue_bounded = f.1;
    }

-- In every state that any interleaving reaches, the tasks and the jobs in the hands of workers, of aborted
-- ones too, are no more than `max_concurrent`, and the queue is no longer than `bound`.
pub Reach-IsSafe :
    (max_concurrent bound : ℕ) {s : System}
    → Reach max_concurrent bound initial s
    → (used s ≤ max_concurrent) × (length s.inner.queue ≤ bound)
Reach-IsSafe max_concurrent bound r = let h = safe r in (omega arith, h.queue_bounded)
  where
    safe : {s : System} → Reach max_concurrent bound initial s → IsSafe max_concurrent bound s
    safe here = record {
      used_counted = omega arith;
      limited = omega arith;
      queue_bounded = omega arith;
    }
    safe (next r step) = Step-IsSafe step (safe r)
