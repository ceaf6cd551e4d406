-- ===== src/Tests/Dispatcher.antt =====
-- Runs of the dispatcher's functions, and its theorems at concrete inputs.
use stream_sub_translator.Common.{
  ℕ, ◌+◌, ◌≤◌, ◌≡◌, refl, Bool, true, false, ltb, none, some, [], ◌∷◌, length, All, codes, arith,
  ◌⊎◌,
}
use stream_sub_translator.Translation.Lineage.{supersede}
use stream_sub_translator.Translation.Dispatcher.{
  QueuedJob, ActiveTask, DispatcherInner, enqueue_step, take, register, finish, start,
  cancel_older_than, allocate_job,
}
use stream_sub_translator.Translation.Dispatcher.Enqueue.{
  enqueue_job, Enqueued, enqueue_job-total, dropped_relevant,
}
use stream_sub_translator.Translation.Dispatcher.Cancel.{Cancelled, cancel_older_than-Cancelled}
use stream_sub_translator.Translation.Dispatcher.Workers.{
  absent, looping, holding, exited, System, Step, starts, allocates, enqueues, spawns, works, takes,
  registers, Reach, here, next, initial,
}
use stream_sub_translator.Translation.Dispatcher.Workers.Slots.{used}
use stream_sub_translator.Translation.Dispatcher.Workers.Safety.{Reach-IsSafe}
use stream_sub_translator.Translation.Dispatcher.Workers.Leaks.{
  finish_twin_loses, lost_slots_block, exited_stays,
}
use stream_sub_translator.Translation.Dispatcher.Publish.{
  LineResult, Answers, JobAnswers, joined, run_job, line_done, failed_item, PreparedLine,
}
use stream_sub_translator.Translation.Dispatcher.Publish.Order.{Shape, run_job-Shape}

abbrev job : ℕ → ℕ → QueuedJob
job id n = record {
  job_id = id;
  sequence = n;
  source_text = codes "hi";
  source_lang = codes "en";
  preview_lineage_key = none;
  preview_generation = 0;
  submitted_at = 0;
}

abbrev task : ℕ → ℕ → ActiveTask
task id n = record { job_id = id; sequence = n; source_lang = codes "en"; source_text_len = 2 }

-- Two jobs wait, and a third sequence is translated.
abbrev busy : DispatcherInner
busy = record initial.inner {
  queue = job 2 5 ∷ job 3 6 ∷ [];
  active_jobs = 1;
  active_tasks = task 1 4 ∷ [];
  active_sequences = 4 ∷ [];
  next_job_id = 3;
}

-- Sequences from 6 on are waited for.
abbrev from_six : ℕ → Bool
from_six n = ltb 5 n

enqueue_job-total_example :
    (inner' : DispatcherInner) × (enqueue_job 3 2 from_six (job 4 7) busy ≡ some inner')
    × Enqueued 2 (job 4 7) busy inner'
enqueue_job-total_example =
    enqueue_job-total 3 2 from_six (job 4 7) busy (omega arith) (omega arith)

dropped_relevant_example : All (λ (j : QueuedJob). ltb 4 j.sequence ≡ true) busy.queue
unfolding enqueue_step
dropped_relevant_example = dropped_relevant 2 (λ n. ltb 4 n) (job 4 7) (job 2 5) busy _ refl refl

cancel_older_than-Cancelled_example : Cancelled from_six 6 busy (cancel_older_than from_six 6 busy)
cancel_older_than-Cancelled_example = cancel_older_than-Cancelled from_six 6 busy

-- A final of sequence 4 is submitted, queued, taken and registered.
abbrev allocated : System
allocated = record initial {
  inner = (allocate_job 0 4 (codes "hi") (codes "en") none initial.inner).0;
  pending = (allocate_job 0 4 (codes "hi") (codes "en") none initial.inner).1 ∷ [];
}

abbrev queued : System
queued = record initial {
  inner = record initial.inner { queue = job 1 4 ∷ []; next_job_id = 1 };
  worker = looping;
}

abbrev taken : System
taken = record queued {
  inner = record queued.inner { queue = []; active_jobs = 1; queue_latency_ms = some 0 };
  worker = holding (job 1 4);
}

abbrev running : System
running = record taken { inner = register (job 1 4) taken.inner; worker = looping }

-- The states are those that the functions give.
allocation : Step 2 8 initial allocated
allocation = allocates 0 4 (codes "hi") (codes "en") none refl

enqueueing : Step 2 8 allocated (record queued { worker = absent })
unfolding allocate_job enqueue_step supersede
enqueueing = enqueues 8 from_six (job 1 4) [] [] queued.inner (omega arith) refl refl

spawning : Step 2 8 (record queued { worker = absent }) queued
spawning = spawns

taking : Step 2 8 queued taken
unfolding take
taking =
    works taken.inner (holding (job 1 4)) (takes 0 2 (job 1 4) taken.inner (omega arith) refl refl)

registering : Step 2 8 taken running
registering = works running.inner looping (registers (job 1 4) refl)

running_reached : Reach 2 8 initial running
running_reached =
    next (next (next (next (next here allocation) enqueueing) spawning) taking) registering

Reach-IsSafe_example : (used running ≤ 2) × (length running.inner.queue ≤ 8)
Reach-IsSafe_example = Reach-IsSafe 2 8 running_reached

-- One slot of two is lost.
abbrev short : System
short = record initial { inner = record initial.inner { active_jobs = 1 } }

-- Two tasks with one sequence.
abbrev twins : System
twins = record initial {
  inner = record initial.inner { active_jobs = 2; active_tasks = task 1 4 ∷ task 2 4 ∷ [] };
  worker = looping;
}

finish_twin_loses_example :
    used (record twins { inner = finish 1 4 twins.inner }) + 1
    ≤ (finish 1 4 twins.inner).active_jobs
finish_twin_loses_example = finish_twin_loses 1 4 twins (omega arith) refl refl

lost_slots_block_example : take 0 1 short.inner ≡ (short.inner, none)
lost_slots_block_example =
    lost_slots_block {max_concurrent = 2} {bound = 8} {s = short} 0 1 (omega arith) here

-- A worker that returned is still there after a start.
abbrev returned : System
returned = record queued { worker = exited }

restart : Step 2 8 returned (record returned { inner = start returned.inner })
restart = starts

exited_stays_example :
    (exited ≡ exited) ⊎ ((exited ≡ absent) × ((start returned.inner).stopped ≡ true))
exited_stays_example = exited_stays restart refl

abbrev good_line : PreparedLine
good_line = record {
  slot_id = codes "translation_1";
  target_lang = codes "de";
  provider_name = codes "p";
  provider_group = codes "g";
  experimental = false;
  local_provider = false;
  label = codes "DE";
}

abbrev fine : Answers
fine = record { stopped = false; relevant = true; superseded = false }

abbrev result_of : PreparedLine → LineResult
result_of line = record {
  item = failed_item line none;
  outcome = line_done;
  reason = none;
  status_message = none;
}

abbrev answers : JobAnswers
answers = record {
  enabled = true;
  fail_prepare = none;
  at_start = fine;
  prepared = record {
    provider_name = codes "p";
    provider_group = codes "g";
    experimental = false;
    local_provider = false;
    lines = good_line ∷ [];
  };
  results = joined (result_of good_line) fine ∷ [];
  at_end = fine;
}

-- The job publishes the result and the completion.
run_job_events : length (run_job (job 1 4) answers).events ≡ 2
unfolding run_job
run_job_events = refl

run_job-Shape_example : Shape (job 1 4) answers (run_job (job 1 4) answers).events
run_job-Shape_example = run_job-Shape (job 1 4) answers
