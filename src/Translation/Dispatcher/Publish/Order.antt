-- ===== src/Translation/Dispatcher/Publish/Order.antt =====
-- crates/voicesub-translation/src/dispatcher.rs: what a job publishes, and in which order.
use stream_sub_translator.Common.{
  ◌≡◌, refl, ap, sym, subst, ◌∙◌, Bool, true, false, not, ◌&&◌, Option, none, some, List, [], ◌∷◌,
  ◌++◌, Text, All, arith, ◌⊎◌, inl, inr, Bool-cases, if_both,
}
use mathlib.Core.List.{append_assoc, append-nil}
use stream_sub_translator.Events.{TranslationItem, TranslationEvent}
use stream_sub_translator.Translation.Dispatcher.{QueuedJob}
use stream_sub_translator.Translation.Dispatcher.Publish.{
  LineResult, LineOutcome, line_done, timeout, error, provider_skipped, Answers, Joined, cancelled,
  panicked, joined, Run, partial_event, note_outcome, drop_stale, accept, skip, settle, is_skipped,
  run_lines, completion_event, JobAnswers, no_run, no_lines, complete, started, run_job,
}
use stream_sub_translator.Translation.Dispatcher.Publish.Shown.{
  AreShown, none_shown, run_lines-Added,
}

-- The items of a list of events, in order.
pub items_of : List TranslationEvent → List TranslationItem
items_of [] = []
items_of (e ∷ es) = e.translations ++ items_of es

abbrev IsPartial : QueuedJob → TranslationEvent → Type 0
IsPartial job e = (e.is_complete ≡ false) × (e.sequence ≡ job.sequence)

-- The events so far are partial, of this job, and carry the published items in order.
record IsRunning (job : QueuedJob) (run : Run) : Type 0 where
  partial : All (IsPartial job) run.events
  carried : items_of run.events ≡ run.published

All-append {ℓ κ} :
    {A : Type ℓ} (P : A → Type κ) (xs : List A) (y : A) → All P xs → P y → All P (xs ++ y ∷ [])
All-append P [] y h hy = (hy, tt)
All-append P (x ∷ xs) y h hy = (h.0, All-append P xs y h.1 hy)

items_of-append :
    (es : List TranslationEvent) (e : TranslationEvent)
    → items_of (es ++ e ∷ []) ≡ items_of es ++ e.translations
unfolding items_of
items_of-append [] e = append-nil e.translations
items_of-append (d ∷ es) e =
    ap (◌++◌ d.translations) (items_of-append es e)
    ∙ sym (append_assoc d.translations (items_of es) e.translations)

accept-IsRunning :
    (job : QueuedJob) (result : LineResult) (run : Run)
    → IsRunning job run
    → IsRunning job (accept job result run)
unfolding accept
accept-IsRunning job result run h = record {
  partial = All-append (IsPartial job) run.events (partial_event job result) h.partial (refl, refl);
  carried =
      items_of-append run.events (partial_event job result)
      ∙ ap (λ is. is ++ result.item ∷ []) h.carried;
}

settle-IsRunning :
    (job : QueuedJob) (result : LineResult) (answers : Answers) (run : Run)
    → IsRunning job run
    → IsRunning job (settle job result answers run)
unfolding settle drop_stale
settle-IsRunning job result answers run h =
    let kept : (why : Text) → IsRunning job (drop_stale why run) =
      λ why. record { partial = h.partial; carried = h.carried } in
    if_both (IsRunning job) (not answers.relevant) _ _ (kept _)
      (if_both (IsRunning job) answers.superseded _ _ (kept _) (accept-IsRunning job result run h))

note_outcome-IsRunning :
    (job : QueuedJob) (result : LineResult) (run : Run)
    → IsRunning job run
    → IsRunning job (note_outcome result run)
unfolding note_outcome
note_outcome-IsRunning job result run h = (elim result.outcome as (λ o. IsRunning job (noted o)) [
  | line_done ↦ h
  | provider_skipped ↦ h
  | timeout ↦ record { partial = h.partial; carried = h.carried }
  | error ↦ record { partial = h.partial; carried = h.carried }
])
  where
    noted : LineOutcome → Run
    noted o = note_outcome (record result { outcome = o }) run

run_lines-IsRunning :
    (job : QueuedJob) (js : List Joined) (run : Run)
    → IsRunning job run
    → IsRunning job (run_lines job js run).0
unfolding run_lines skip
run_lines-IsRunning job [] run h = h
run_lines-IsRunning job (cancelled ∷ js) run h = h
run_lines-IsRunning job (panicked ∷ js) run h = run_lines-IsRunning job js run h
run_lines-IsRunning job (joined result answers ∷ js) run h =
    let noted = note_outcome-IsRunning job result run h in
    elim (Bool-cases (is_skipped result)) [
      | inl e ↦
          rw (e, run_lines)
            (run_lines-IsRunning job js (skip run)
              (record { partial = h.partial; carried = h.carried }))
      | inr e ↦ elim (Bool-cases answers.stopped) [
        | inl f ↦ rw (e, run_lines, f) noted
        | inr f ↦
            rw (e, run_lines, f)
              (run_lines-IsRunning job js _ (settle-IsRunning job result answers _ noted))
      ]
    ]

abbrev is_cancelled : Joined → Bool
is_cancelled cancelled = true
is_cancelled panicked = false
is_cancelled (joined result answers) = false

-- A loop that ends by itself met no cancellation.
run_lines-ended :
    (job : QueuedJob) (js : List Joined) (run : Run)
    → (run_lines job js run).1 ≡ true
    → All (λ j. is_cancelled j ≡ false) js
unfolding run_lines
run_lines-ended job [] run h = tt
run_lines-ended job (cancelled ∷ js) run h = absurd (ground arith)
run_lines-ended job (panicked ∷ js) run h = (refl, run_lines-ended job js run h)
run_lines-ended job (joined result answers ∷ js) run h = elim (Bool-cases (is_skipped result)) [
  | inl e ↦ (refl, run_lines-ended job js _ (rw (e, run_lines) at h))
  | inr e ↦ elim (Bool-cases answers.stopped) [
    | inl f ↦ absurd (ground arith)
    | inr f ↦ (refl, run_lines-ended job js _ (rw (e, run_lines, f) at h))
  ]
]

-- The completion that a job may publish, and when it does.
pub record Completes (job : QueuedJob) (a : JobAnswers) (partials events : List TranslationEvent)
    : Type 0 where
  pub completion : TranslationEvent
  pub last : events ≡ partials ++ completion ∷ []
  pub whole : completion.is_complete ≡ true
  pub same_job : completion.sequence ≡ job.sequence
  pub same_items : completion.translations ≡ items_of partials
  pub still_relevant : a.at_end.relevant ≡ true
  pub running : a.at_end.stopped ≡ false
  pub newest : a.at_end.superseded ≡ false
  pub not_cancelled : All (λ j. is_cancelled j ≡ false) a.results

abbrev pub Shape : QueuedJob → JobAnswers → List TranslationEvent → Type 0
Shape job a events =
    (partials : List TranslationEvent) × All (IsPartial job) partials
    × AreShown job a.results partials
    × ((events ≡ partials) ⊎ Completes job a partials events)

complete-Shape :
    (job : QueuedJob) (a : JobAnswers) (r : Run × Bool)
    → run_lines job a.results no_run ≡ r
    → IsRunning job r.0
    → AreShown job a.results r.0.events
    → Shape job a (complete job a.prepared a.at_end r).events
unfolding complete completion_event
complete-Shape job a (run, true) e h shows =
    let answers = a.at_end in
    elim (Bool-cases (true && not answers.superseded && not answers.stopped && answers.relevant)) [
      | inl t ↦ rw t (
        run.events,
        h.partial,
        shows,
        inr (record {
          completion = completion_event job a.prepared run;
          last = refl;
          whole = refl;
          same_job = refl;
          same_items = sym h.carried;
          still_relevant = ground arith;
          running = ground arith;
          newest = ground arith;
          not_cancelled = run_lines-ended job a.results no_run (ap (λ p. p.1) e);
        }),
      )
      | inr t ↦ rw t (run.events, h.partial, shows, inl refl)
    ]
complete-Shape job a (run, false) e h shows = (run.events, h.partial, shows, inl refl)

no_run-IsRunning : (job : QueuedJob) → IsRunning job no_run
unfolding items_of
no_run-IsRunning job = record { partial = tt; carried = refl }

started-Shape :
    (job : QueuedJob) (a : JobAnswers) (f : Option Text) → Shape job a (started job a f).events
unfolding started drop_stale
started-Shape job a (some why) = ([], tt, none_shown, inl refl)
started-Shape job a none =
    let S = λ (run : Run). Shape job a run.events in
    if_both S (not a.at_start.relevant) _ _ ([], tt, none_shown, inl refl)
      (if_both S a.at_start.superseded _ _ ([], tt, none_shown, inl refl)
        (if_both S (no_lines a.prepared) _ _ ([], tt, none_shown, inl refl)
          (complete-Shape job a _ refl
            (run_lines-IsRunning job a.results no_run (no_run-IsRunning job))
            (let (new, e, s) = run_lines-Added job a.results no_run in
              subst (AreShown job a.results) (sym e) s))))

-- The events of a job are first partial ones of its sequence: results that came in, each on its own and in
-- their order, of lines that were not skipped, and only such as came while the dispatcher ran, the
-- sequence was relevant and no newer preview had come. Then there is at most one completion, which carries the items of all of them in order. The completion comes only if the job
-- was not cancelled and, at the end, the sequence is relevant, the dispatcher runs and no newer
-- preview has come.
pub run_job-Shape : (job : QueuedJob) (a : JobAnswers) → Shape job a (run_job job a).events
unfolding run_job
run_job-Shape job a =
    if_both (λ (run : Run). Shape job a run.events) (not a.enabled) _ _
      ([], tt, none_shown, inl refl) (started-Shape job a a.fail_prepare)
