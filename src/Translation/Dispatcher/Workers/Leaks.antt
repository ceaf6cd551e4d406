-- ===== src/Translation/Dispatcher/Workers/Leaks.antt =====
-- crates/voicesub-translation/src/dispatcher.rs: how a slot is lost, and a worker that is never replaced.
use stream_sub_translator.Common.{
  ℕ, ◌+◌, ◌≤◌, ◌<◌, ◌≡◌, refl, ap, Bool, true, not, ◌&&◌, ◌==◌, none, List, [], ◌∷◌, length, keep,
  length-keep-le, any, arith, Bool-cases, inl, inr, ◌⊎◌,
}
use stream_sub_translator.Translation.Dispatcher.{ActiveTask, DispatcherInner, take, finish, stop}
use stream_sub_translator.Translation.Dispatcher.Workers.{
  Worker, absent, exited, System, ensure_worker, LoopStep, exits, takes, registers, Step, starts,
  stops, allocates, enqueues, drops, spawns, cancels, works, works_on, ends, finishes, Reach, here,
  next,
}
use stream_sub_translator.Translation.Dispatcher.Workers.Slots.{used, length-finish, Step-Lost}

-- Another active task with the same sequence.
abbrev has_twin : ℕ → ℕ → List ActiveTask → Bool
has_twin job_id sequence tasks =
    any (λ task. not (task.job_id == job_id) && (task.sequence == sequence)) tasks

abbrev stays : ℕ → ℕ → ActiveTask → Bool
stays job_id sequence task = not (task.job_id == job_id) && not (task.sequence == sequence)

length-twin :
    (job_id sequence : ℕ) (xs : List ActiveTask)
    → has_twin job_id sequence xs ≡ true
    → length (keep (stays job_id sequence) xs) < length xs
length-twin job_id sequence [] t = absurd (ground arith)
length-twin job_id sequence (x ∷ xs) t =
    ground (arith, length-keep-le (stays job_id sequence) xs, length-twin job_id sequence xs)

length-finish_twin :
    (job_id sequence : ℕ) (xs : List ActiveTask)
    → any (λ task. task.job_id == job_id) xs ≡ true
    → has_twin job_id sequence xs ≡ true
    → length (keep (λ task. not (task.job_id == job_id) && not (task.sequence == sequence)) xs) + 2
      ≤ length xs
length-finish_twin job_id sequence [] h t = absurd (ground arith)
length-finish_twin job_id sequence (x ∷ xs) h t = elim (Bool-cases (x.job_id == job_id)) [
  | inl e ↦ ground (arith, length-twin job_id sequence xs)
  | inr e ↦ ground (arith, length-finish job_id sequence xs, length-finish_twin job_id sequence xs)
]

-- A task that ends while another task with its sequence is active takes that one off the list too, and
-- gives back one slot for the two: one slot is lost.
pub finish_twin_loses :
    (job_id sequence : ℕ) (s : System)
    → used s ≤ s.inner.active_jobs
    → any (λ task. task.job_id == job_id) s.inner.active_tasks ≡ true
    → has_twin job_id sequence s.inner.active_tasks ≡ true
    → used (record s { inner = finish job_id sequence s.inner }) + 1
      ≤ (finish job_id sequence s.inner).active_jobs
unfolding finish
finish_twin_loses job_id sequence s counted active twin =
    rw active (omega (arith, length-finish_twin job_id sequence s.inner.active_tasks active twin))

Reach-Lost :
    {max_concurrent bound : ℕ} {s t : System} (k : ℕ)
    → Reach max_concurrent bound s t
    → used s + k ≤ s.inner.active_jobs
    → used t + k ≤ t.inner.active_jobs
Reach-Lost k here l = l
Reach-Lost k (next r step) l = Step-Lost k step (Reach-Lost k r l)

-- With as many lost slots as the limit allows jobs, no state that follows lets the worker take a job.
pub lost_slots_block :
    {max_concurrent bound : ℕ} {s t : System} (now limit : ℕ)
    → used s + limit ≤ s.inner.active_jobs
    → Reach max_concurrent bound s t
    → take now limit t.inner ≡ (t.inner, none)
unfolding take
lost_slots_block {t = t} now limit lost r =
    let full : limit ≤ t.inner.active_jobs = omega (arith, Reach-Lost limit r lost) in ground arith

-- A worker that has returned does nothing more.
exited_idle :
    {max_concurrent : ℕ} {inner inner' : DispatcherInner} {w w' : Worker}
    → LoopStep max_concurrent inner w inner' w'
    → w ≡ exited
    → ⊥
exited_idle (exits l stopped) w = ground arith
exited_idle (takes now limit job inner' h l e) w = ground arith
exited_idle (registers job l) w = ground arith

-- While the handle of a worker that has returned is kept, every step but a stop leaves it there, a start
-- too.
pub exited_stays :
    {max_concurrent bound : ℕ} {s t : System}
    → Step max_concurrent bound s t
    → s.worker ≡ exited
    → (t.worker ≡ exited) ⊎ ((t.worker ≡ absent) × (t.inner.stopped ≡ true))
unfolding stop
exited_stays starts w = inl (ap ensure_worker w)
exited_stays stops w = inr (refl, refl)
exited_stays (allocates now sequence text lang key running) w = inl w
exited_stays (enqueues limit is_relevant job before after inner' h p e) w = inl w
exited_stays (drops limit is_relevant job victim before after inner' h p e) w = inl w
exited_stays spawns w = inl (ap ensure_worker w)
exited_stays (cancels sequences) w = inl w
exited_stays (works inner' worker' step) w = absurd (exited_idle step w)
exited_stays (works_on worker worker' before after inner' e step) w = inl w
exited_stays (ends worker before after e) w = inl w
exited_stays (finishes job_id sequence) w = inl w
