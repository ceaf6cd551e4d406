-- ===== src/Translation/Dispatcher/Enqueue.antt =====
-- crates/voicesub-translation/src/dispatcher.rs: `enqueue_job`. The queue is bounded, the loop ends, no
-- job is lost without being counted, and the job that goes is one that nobody waits for.
use stream_sub_translator.Common.{
  ℕ, zero, suc, ◌+◌, ◌≤◌, ◌<◌, ◌≡◌, refl, ap, Bool, true, false, ltb, ltb→lt, ltb→le, Option, none,
  some, List, [], ◌∷◌, ◌++◌, length, length-append, All, arith, Bool-cases, Option-cases, inl, inr,
}
use stream_sub_translator.Translation.Dispatcher.{
  QueuedJob, DispatcherInner, EnqueueStep, pushed, dropped, panicked, remove_at, dropped_index,
  enqueue_step, unwrap_or_zero,
}

-- `enqueue_job`: rounds until the job is in. `none` is a panic, or more rounds than the fuel.
pub enqueue_job : ℕ → ℕ → (ℕ → Bool) → QueuedJob → DispatcherInner → Option DispatcherInner
enqueue_job zero bound is_relevant job inner = none
enqueue_job (suc fuel) bound is_relevant job inner =
    elim (enqueue_step bound is_relevant job inner) [
      | pushed inner' ↦ some inner'
      | dropped victim inner' ↦ enqueue_job fuel bound is_relevant job inner'
      | panicked ↦ none
    ]

remove_at-total :
    (i : ℕ) (js : List QueuedJob)
    → i < length js
    → (k : QueuedJob) × (ks : List QueuedJob) × (remove_at i js ≡ some (k, ks))
      × (length ks + 1 ≡ length js)
unfolding remove_at
remove_at-total i [] h = elim h [ ]
remove_at-total zero (j ∷ js) h = (j, js, refl, omega arith)
remove_at-total (suc i) (j ∷ js) h =
    let (k, ks, e, n) = remove_at-total i js (omega arith) in (k, j ∷ ks, rw (e), omega arith)

dropped_index-lt :
    (is_relevant : ℕ → Bool) (js : List QueuedJob)
    → 0 < length js
    → unwrap_or_zero (dropped_index is_relevant js) < length js
unfolding dropped_index
dropped_index-lt is_relevant [] h = h
dropped_index-lt is_relevant (j ∷ []) h = ground arith
dropped_index-lt is_relevant (j ∷ k ∷ js) h = ground (arith, dropped_index-lt is_relevant (k ∷ js))

-- One round: the job goes in where there is room; else one queued job goes out and is counted.
record Drops (inner inner' : DispatcherInner) : Type 0 where
  one_less : length inner'.queue + 1 ≡ length inner.queue
  counted : inner'.jobs_cancelled ≡ inner.jobs_cancelled + 1

abbrev Round : ℕ → QueuedJob → DispatcherInner → EnqueueStep → Type 0
Round bound job inner (pushed inner') =
    (length inner.queue < bound)
    × (inner'.queue ≡ inner.queue ++ job ∷ [])
    × (inner'.jobs_cancelled ≡ inner.jobs_cancelled)
Round bound job inner (dropped victim inner') = (bound ≤ length inner.queue) × Drops inner inner'
Round bound job inner panicked = ⊥

enqueue_step-Round :
    (bound : ℕ) (is_relevant : ℕ → Bool) (job : QueuedJob) (inner : DispatcherInner)
    → 0 < bound
    → Round bound job inner (enqueue_step bound is_relevant job inner)
unfolding enqueue_step
enqueue_step-Round bound is_relevant job inner pos =
    elim (Bool-cases (ltb (length inner.queue) bound)) [
      | inl room ↦ rw room (ltb→lt _ _ room, refl, refl)
      | inr full ↦
          let q = inner.queue in
          let h = dropped_index-lt is_relevant q (omega (arith, ltb→le (length q) bound full)) in
          let (k, ks, e, n) = remove_at-total (unwrap_or_zero (dropped_index is_relevant q)) q h in
          rw (full, e) (ltb→le (length q) bound full, record { one_less = n; counted = refl })
    ]

-- What `enqueue_job` leaves: the job at the back, no more jobs than the bound, and each job that
-- is no longer queued counted as cancelled.
pub record Enqueued (bound : ℕ) (job : QueuedJob) (inner inner' : DispatcherInner) : Type 0 where
  pub kept : List QueuedJob
  pub at_back : inner'.queue ≡ kept ++ job ∷ []
  pub bounded : length inner'.queue ≤ bound
  pub counted :
      length inner'.queue + inner'.jobs_cancelled ≡ length inner.queue + inner.jobs_cancelled + 1

-- With more fuel than queued jobs and a positive bound the loop of `enqueue_job` ends, without a
-- panic: the job is at the back, the queue is within the bound, and
-- every job that had to go is counted as cancelled.
pub enqueue_job-total :
    (fuel bound : ℕ) (is_relevant : ℕ → Bool) (job : QueuedJob) (inner : DispatcherInner)
    → 0 < bound
    → length inner.queue < fuel
    → (inner' : DispatcherInner) × (enqueue_job fuel bound is_relevant job inner ≡ some inner')
      × Enqueued bound job inner inner'
unfolding enqueue_job
enqueue_job-total zero bound is_relevant job inner pos h = elim h [ ]
enqueue_job-total (suc fuel) bound is_relevant job inner pos h =
    next (enqueue_step bound is_relevant job inner) refl
      (enqueue_step-Round bound is_relevant job inner pos)
      (λ inner'. enqueue_job-total fuel bound is_relevant job inner' pos)
  where
    next :
        (r : EnqueueStep)
        → enqueue_step bound is_relevant job inner ≡ r
        → Round bound job inner r
        → ((inner' : DispatcherInner)
            → length inner'.queue < fuel
            → (inner'' : DispatcherInner) × (enqueue_job fuel bound is_relevant job inner'
                ≡ some inner'')
              × Enqueued bound job inner' inner'')
        → (inner' : DispatcherInner) × (enqueue_job (suc fuel) bound is_relevant job inner
            ≡ some inner')
          × Enqueued bound job inner inner'
    next (pushed inner') e (room, q, c) rest = (
      inner',
      rw (e, enqueue_job),
      record {
        kept = inner.queue;
        at_back = q;
        bounded = omega (arith, ap length q, length-append inner.queue (job ∷ []));
        counted = omega (arith, ap length q, length-append inner.queue (job ∷ []));
      },
    )
    next (dropped victim inner') e (full, d) rest =
        let (inner'', done, r) = rest inner' (omega arith) in
        (
          inner'',
          rw (e, enqueue_job) done,
          record {
            kept = r.kept;
            at_back = r.at_back;
            bounded = r.bounded;
            counted = omega (arith, r.counted, d.one_less, d.counted);
          },
        )
    next panicked e r rest = absurd r

dropped_index-none :
    (is_relevant : ℕ → Bool) (js : List QueuedJob)
    → dropped_index is_relevant js ≡ none
    → All (λ j. is_relevant j.sequence ≡ true) js
unfolding dropped_index
dropped_index-none is_relevant [] e = tt
dropped_index-none is_relevant (j ∷ js) e = ground (arith, dropped_index-none is_relevant js)

dropped_index-some :
    (is_relevant : ℕ → Bool) (js : List QueuedJob) (i : ℕ) (k : QueuedJob) (ks : List QueuedJob)
    → dropped_index is_relevant js ≡ some i
    → remove_at i js ≡ some (k, ks)
    → is_relevant k.sequence ≡ false
unfolding dropped_index remove_at
dropped_index-some is_relevant [] i k ks e r = ground arith
dropped_index-some is_relevant (j ∷ js) zero k ks e r = ground arith
dropped_index-some is_relevant (j ∷ js) (suc i) k ks e r = elim (Option-cases (remove_at i js)) [
  | inl none_left ↦ absurd (ground arith)
  | inr ((k', ks'), f) ↦ ground (arith, dropped_index-some is_relevant js i k' ks' (ground arith) f)
]

-- A job that somebody still waits for is dropped only if that holds of every queued job.
pub dropped_relevant :
    (bound : ℕ) (is_relevant : ℕ → Bool) (job victim : QueuedJob) (inner inner' : DispatcherInner)
    → enqueue_step bound is_relevant job inner ≡ dropped victim inner'
    → is_relevant victim.sequence ≡ true
    → All (λ j. is_relevant j.sequence ≡ true) inner.queue
unfolding enqueue_step
dropped_relevant bound is_relevant job victim inner inner' e h =
    elim (Option-cases (dropped_index is_relevant inner.queue)) [
      | inl all_relevant ↦ dropped_index-none is_relevant inner.queue all_relevant
      | inr (i, found) ↦ elim (Option-cases (remove_at i inner.queue)) [
        | inl gone ↦ absurd (ground arith)
        | inr ((k, ks), removed) ↦
            absurd (ground (arith, dropped_index-some is_relevant inner.queue i k ks found removed))
      ]
    ]
