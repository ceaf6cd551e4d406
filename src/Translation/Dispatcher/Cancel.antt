-- ===== src/Translation/Dispatcher/Cancel.antt =====
-- crates/voicesub-translation/src/dispatcher.rs: `cancel_older_than` removes exactly the older jobs and
-- tasks that nobody waits for.
use stream_sub_translator.Common.{
  ℕ, ◌+◌, ◌-◌, ◌≡◌, refl, sym, ap, ◌∙◌, Bool, true, false, not, ◌&&◌, ◌||◌, ltb, ◌==◌, eq_iff_ℕ,
  List, [], ◌∷◌, ◌++◌, map, length, keep, length-keep-le, All, arith, Bool-cases, inl, inr,
}
use stream_sub_translator.Translation.Dispatcher.{
  QueuedJob, ActiveTask, DispatcherInner, contains, job_sequences, task_sequences, cancel_sequences,
  cancel_older_than, cancel_all,
}

contains-keep :
    (p : ℕ → Bool) (n : ℕ) (xs : List ℕ) → contains n (keep p xs) ≡ (p n && contains n xs)
contains-keep p n [] = ground arith
contains-keep p n (x ∷ xs) = elim (Bool-cases (x == n)) [
  | inl e ↦ rw ((eq_iff_ℕ x n).0 e) (ground (arith, contains-keep p n xs))
  | inr e ↦ ground (arith, contains-keep p n xs)
]

contains-append :
    (n : ℕ) (xs ys : List ℕ) → contains n (xs ++ ys) ≡ (contains n xs || contains n ys)
contains-append n [] ys = refl
contains-append n (x ∷ xs) ys = ground (arith, contains-append n xs ys)

-- Older than the sequence, and not relevant.
abbrev is_outdated : (ℕ → Bool) → ℕ → ℕ → Bool
is_outdated is_relevant sequence n = ltb n sequence && not (is_relevant n)

distribute : (o r x y : Bool) → ((r && (o && x)) || (r && (o && y))) ≡ ((o && r) && (x || y))
distribute true true x y = refl
distribute true false x y = refl
distribute false true x y = refl
distribute false false x y = refl

contains-cancel_sequences :
    (is_relevant : ℕ → Bool) (sequence n : ℕ) (inner : DispatcherInner)
    → contains n (cancel_sequences is_relevant sequence inner) ≡ (
        is_outdated is_relevant sequence n
        && (contains n (job_sequences inner.queue)
            || contains n (task_sequences inner.active_tasks)))
unfolding cancel_sequences
contains-cancel_sequences is_relevant sequence n inner =
    let old = λ (m : ℕ). ltb m sequence in
    let gone = λ (m : ℕ). not (is_relevant m) in
    let qs = job_sequences inner.queue in
    let ts = task_sequences inner.active_tasks in
    contains-append n (keep gone (keep old qs)) (keep gone (keep old ts))
    ∙ cc (
      contains-keep gone n (keep old qs),
      contains-keep old n qs,
      contains-keep gone n (keep old ts),
      contains-keep old n ts,
    )
    ∙ distribute (old n) (gone n) (contains n qs) (contains n ts)

-- A list is kept alike by two tests that agree on its members.
keep-congr {ℓ} :
    {A : Type ℓ} (p q : A → Bool) (xs : List A) → All (λ x. p x ≡ q x) xs → keep p xs ≡ keep q xs
keep-congr p q [] h = refl
keep-congr p q (x ∷ xs) h = rw (h.0, keep-congr p q xs h.1)

All-map {ℓ κ} :
    {A : Type ℓ} (P Q : A → Type κ) (xs : List A) → ((x : A) → P x → Q x) → All P xs → All Q xs
All-map P Q [] f h = tt
All-map P Q (x ∷ xs) f h = (f x h.0, All-map P Q xs f h.1)

-- Each member of a list is found in it.
All-contains {ℓ} :
    {A : Type ℓ} (f : A → ℕ) (xs : List A) → All (λ x. contains (f x) (map f xs) ≡ true) xs
All-contains f [] = tt
All-contains f (x ∷ xs) = (
  ground (arith, (eq_iff_ℕ (f x) (f x)).1 refl),
  All-map (λ y. contains (f y) (map f xs) ≡ true) (λ y. contains (f y) (map f (x ∷ xs)) ≡ true) xs
      (λ y h. ground arith) (All-contains f xs),
)

-- What a cancellation leaves of the queue, the tasks and the slots.
pub record Cancelled (is_relevant : ℕ → Bool) (sequence : ℕ) (inner inner' : DispatcherInner)
    : Type 0 where
  pub queue_kept :
      inner'.queue ≡ keep (λ job. not (is_outdated is_relevant sequence job.sequence)) inner.queue
  pub tasks_kept :
      inner'.active_tasks
      ≡ keep (λ task. not (is_outdated is_relevant sequence task.sequence)) inner.active_tasks
  pub slots_given_back :
      inner'.active_jobs
      ≡ inner.active_jobs - (length inner.active_tasks - length inner'.active_tasks)
  pub counted :
      inner'.jobs_cancelled + length inner'.queue + length inner'.active_tasks
      ≡ inner.jobs_cancelled + length inner.queue + length inner.active_tasks

keep_all {ℓ} : {A : Type ℓ} (xs : List A) → keep (λ x. true) xs ≡ xs
keep_all [] = refl
keep_all (x ∷ xs) = ap (◌∷◌ x) (keep_all xs)

-- What `cancel_all` does with a set of sequences, empty or not.
pub record Applied (c : List ℕ) (inner inner' : DispatcherInner) : Type 0 where
  pub queue_kept : inner'.queue ≡ keep (λ job. not (contains job.sequence c)) inner.queue
  pub tasks_kept :
      inner'.active_tasks ≡ keep (λ task. not (contains task.sequence c)) inner.active_tasks
  pub slots :
      inner'.active_jobs
      ≡ inner.active_jobs - (length inner.active_tasks - length inner'.active_tasks)
  pub counted :
      inner'.jobs_cancelled + length inner'.queue + length inner'.active_tasks
      ≡ inner.jobs_cancelled + length inner.queue + length inner.active_tasks

pub cancel_all-Applied :
    (c : List ℕ) (inner : DispatcherInner) → Applied c inner (cancel_all c inner)
unfolding cancel_all
cancel_all-Applied [] inner = record {
  queue_kept = sym (keep_all inner.queue);
  tasks_kept = sym (keep_all inner.active_tasks);
  slots = omega arith;
  counted = refl;
}
cancel_all-Applied (s ∷ ss) inner = record {
  queue_kept = refl;
  tasks_kept = refl;
  slots = refl;
  counted = omega (
    arith,
    length-keep-le (λ (job : QueuedJob). not (contains job.sequence (s ∷ ss))) inner.queue,
    length-keep-le (λ (task : ActiveTask). not (contains task.sequence (s ∷ ss)))
        inner.active_tasks,
  );
}

-- For a sequence that is queued or active, to be in the set is to be outdated.
cancelled_iff_outdated :
    (is_relevant : ℕ → Bool) (sequence n : ℕ) (inner : DispatcherInner)
    → (contains n (job_sequences inner.queue) || contains n (task_sequences inner.active_tasks))
      ≡ true
    → not (contains n (cancel_sequences is_relevant sequence inner))
      ≡ not (is_outdated is_relevant sequence n)
cancelled_iff_outdated is_relevant sequence n inner h =
    ground (arith, contains-cancel_sequences is_relevant sequence n inner)

-- With nothing between its two locked parts, `cancel_older_than` keeps a queued job, and a task,
-- exactly if it is not older than the sequence or is still relevant, in their order; every task
-- that goes gives its slot back, and every job and task that goes is counted as cancelled.
pub cancel_older_than-Cancelled :
    (is_relevant : ℕ → Bool) (sequence : ℕ) (inner : DispatcherInner)
    → Cancelled is_relevant sequence inner (cancel_older_than is_relevant sequence inner)
unfolding cancel_older_than
cancel_older_than-Cancelled is_relevant sequence inner =
    let a = cancel_all-Applied (cancel_sequences is_relevant sequence inner) inner in
    record {
      queue_kept =
          a.queue_kept
          ∙ keep-congr _ _ inner.queue (
              All-map _ _ inner.queue
                (λ job h.
                  cancelled_iff_outdated is_relevant sequence job.sequence inner
                    (ground (arith, h)))
                (All-contains (λ job. job.sequence) inner.queue));
      tasks_kept =
          a.tasks_kept
          ∙ keep-congr _ _ inner.active_tasks (
              All-map _ _ inner.active_tasks
                (λ task h.
                  cancelled_iff_outdated is_relevant sequence task.sequence inner
                    (ground (arith, h)))
                (All-contains (λ task. task.sequence) inner.active_tasks));
      slots_given_back = a.slots;
      counted = a.counted;
    }
