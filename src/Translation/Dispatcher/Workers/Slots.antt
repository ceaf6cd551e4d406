-- ===== src/Translation/Dispatcher/Workers/Slots.antt =====
-- crates/voicesub-translation/src/dispatcher.rs: the slots of `active_jobs`. Never too many jobs run at
-- once, and a slot that is lost does not come back.
use stream_sub_translator.Common.{
  ℕ, ◌+◌, ◌≤◌, ◌<◌, ◌≡◌, refl, ap, Bool, true, not, ◌&&◌, ◌==◌, some, List, [], ◌∷◌, ◌++◌, length,
  length-append, keep, length-keep-le, any, arith, Bool-cases, inl, inr,
}
use stream_sub_translator.Translation.Dispatcher.{
  QueuedJob, ActiveTask, DispatcherInner, pushed, dropped, contains, task_of, allocate_job,
  enqueue_step, take, register, finish, stop, start, cancel_all,
}
use stream_sub_translator.Translation.Dispatcher.Cancel.{cancel_all-Applied}
use stream_sub_translator.Translation.Dispatcher.Workers.{
  Worker, absent, System, ensure_worker, held, held_all, LoopStep, exits, takes, registers, Step,
  starts, stops, allocates, enqueues, drops, spawns, cancels, works, works_on, ends, finishes,
}

-- The jobs in the hands of workers, of aborted ones too.
abbrev pub in_hands : System → ℕ
in_hands s = held s.worker + held_all s.aborted

-- The slots in use, by tasks and by the jobs in the hands of workers.
abbrev pub used : System → ℕ
used s = length s.inner.active_tasks + in_hands s

held_all-middle :
    (before after : List Worker) (w : Worker)
    → held_all (before ++ w ∷ after) ≡ held w + held_all (before ++ after)
held_all-middle [] after w = refl
held_all-middle (v ∷ before) after w = omega (arith, held_all-middle before after w)

-- The end of a task that is still active takes it, at least, off the list.
pub length-finish :
    (job_id sequence : ℕ) (xs : List ActiveTask)
    → any (λ task. task.job_id == job_id) xs ≡ true
    → length (keep (λ task. not (task.job_id == job_id) && not (task.sequence == sequence)) xs)
      < length xs
length-finish job_id sequence [] h = absurd (ground arith)
length-finish job_id sequence (x ∷ xs) h = elim (Bool-cases (x.job_id == job_id)) [
  | inl e ↦ rw e (
      omega (
        arith,
        length-keep-le
            (λ (task : ActiveTask). not (task.job_id == job_id) && not (task.sequence == sequence))
            xs,
      ))
  | inr e ↦ ground (arith, length-finish job_id sequence xs)
]

-- `k` slots that are counted and not in use stay so: no step gives them back.
module _ (k : ℕ) where
  abbrev Lost : DispatcherInner → ℕ → Type 0
  Lost inner h = length inner.active_tasks + h + k ≤ inner.active_jobs

  finish-Lost :
      (job_id sequence h : ℕ) (inner : DispatcherInner)
      → Lost inner h
      → Lost (finish job_id sequence inner) h
  unfolding finish
  finish-Lost job_id sequence h inner l =
      elim (Bool-cases (any (λ task. task.job_id == job_id) inner.active_tasks)) [
        | inl active ↦
            rw active (omega (arith, length-finish job_id sequence inner.active_tasks active))
        | inr gone ↦ rw gone l
      ]

  cancel_all-Lost :
      (c : List ℕ) (h : ℕ) (inner : DispatcherInner) → Lost inner h → Lost (cancel_all c inner) h
  cancel_all-Lost c h inner l =
      let a = cancel_all-Applied c inner in
      omega (
        arith,
        a.slots,
        ap length a.tasks_kept,
        length-keep-le (λ (task : ActiveTask). not (contains task.sequence c)) inner.active_tasks,
      )

  pushed-Lost :
      (limit : ℕ) (is_relevant : ℕ → Bool) (job : QueuedJob) (h : ℕ)
      (inner inner' : DispatcherInner)
      → enqueue_step limit is_relevant job inner ≡ pushed inner'
      → Lost inner h
      → Lost inner' h
  unfolding enqueue_step
  pushed-Lost limit is_relevant job h inner inner' e l = ground arith

  dropped-Lost :
      (limit : ℕ) (is_relevant : ℕ → Bool) (job victim : QueuedJob) (h : ℕ)
      (inner inner' : DispatcherInner)
      → enqueue_step limit is_relevant job inner ≡ dropped victim inner'
      → Lost inner h
      → Lost inner' h
  unfolding enqueue_step
  dropped-Lost limit is_relevant job victim h inner inner' e l = ground arith

  take-Lost :
      (now limit h : ℕ) (job : QueuedJob) (inner inner' : DispatcherInner)
      → take now limit inner ≡ (inner', some job)
      → Lost inner h
      → Lost inner' (1 + h)
  unfolding take
  take-Lost now limit h job inner inner' e l = ground arith

  register-Lost :
      (job : QueuedJob) (h : ℕ) (inner : DispatcherInner)
      → Lost inner (1 + h)
      → Lost (register job inner) h
  unfolding register
  register-Lost job h inner l = omega (arith, length-append inner.active_tasks (task_of job ∷ []))

  loop-Lost :
      {max_concurrent : ℕ} {inner inner' : DispatcherInner} {w w' : Worker} (h : ℕ)
      → LoopStep max_concurrent inner w inner' w'
      → Lost inner (held w + h)
      → Lost inner' (held w' + h)
  loop-Lost {inner = inner} h (exits w stopped) l = omega (arith, ap held w)
  loop-Lost {inner = inner} h (takes now limit job inner' le w e) l =
      take-Lost now limit h job inner inner' e (omega (arith, ap held w))
  loop-Lost {inner = inner} h (registers job w) l =
      let l' = register-Lost job h inner (omega (arith, ap held w)) in omega (arith, l')

  stop-Lost : (h : ℕ) (inner : DispatcherInner) → Lost inner h → Lost (stop inner) h
  unfolding stop
  stop-Lost h inner l = omega arith

  held-ensure_worker : (w : Worker) → held (ensure_worker w) ≡ held w
  held-ensure_worker absent = refl
  held-ensure_worker w = refl

  -- Once `k` slots are lost, no step of any task gives one back.
  pub Step-Lost :
      {max_concurrent bound : ℕ} {s t : System}
      → Step max_concurrent bound s t
      → used s + k ≤ s.inner.active_jobs
      → used t + k ≤ t.inner.active_jobs
  unfolding start allocate_job
  Step-Lost {s = s} starts l = omega (arith, held-ensure_worker s.worker)
  Step-Lost {s = s} stops l = let l' = stop-Lost (in_hands s) s.inner l in omega (arith, l')
  Step-Lost (allocates now sequence text lang key running) l = l
  Step-Lost {s = s} (enqueues limit is_relevant job before after inner' h p e) l =
      pushed-Lost limit is_relevant job (in_hands s) s.inner inner' e l
  Step-Lost {s = s} (drops limit is_relevant job victim before after inner' h p e) l =
      dropped-Lost limit is_relevant job victim (in_hands s) s.inner inner' e l
  Step-Lost {s = s} spawns l = omega (arith, held-ensure_worker s.worker)
  Step-Lost {s = s} (cancels sequences) l = cancel_all-Lost sequences (in_hands s) s.inner l
  Step-Lost {s = s} (works inner' w' step) l = loop-Lost (held_all s.aborted) step l
  Step-Lost {s = s} (works_on w w' before after inner' e step) l =
      let h = held s.worker + held_all (before ++ after) in
      let one : Lost s.inner (held w + h) =
        omega (arith, ap held_all e, held_all-middle before after w) in
      let two = loop-Lost h step one in omega (arith, two, held_all-middle before after w')
  Step-Lost {s = s} (ends w before after e) l =
      omega (arith, ap held_all e, held_all-middle before after w)
  Step-Lost {s = s} (finishes job_id sequence) l =
      finish-Lost job_id sequence (in_hands s) s.inner l
