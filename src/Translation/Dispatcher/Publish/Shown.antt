-- ===== src/Translation/Dispatcher/Publish/Shown.antt =====
-- crates/voicesub-translation/src/dispatcher.rs, `run_job`: which results of the lines become events.
use stream_sub_translator.Common.{
  ◌≡◌, ◌≢◌, refl, ap, sym, ◌∙◌, true, false, List, [], ◌∷◌, ◌++◌, arith, ◌⊎◌, inl, inr, Bool-cases,
}
use mathlib.Core.List.{append_assoc, append-nil}
use stream_sub_translator.Events.{TranslationEvent}
use stream_sub_translator.Translation.Dispatcher.{QueuedJob}
use stream_sub_translator.Translation.Dispatcher.Publish.{
  LineResult, LineOutcome, line_done, timeout, error, provider_skipped, Answers, Joined, cancelled,
  panicked, joined, Run, partial_event, note_outcome, drop_stale, accept, skip, settle, is_skipped,
  run_lines,
}

-- Events that are the results that came in, some left out, each on its own and in their order: of a line
-- that was not skipped, while the dispatcher ran, the sequence was relevant, and no newer preview
-- had come.
pub data AreShown (job : QueuedJob) : List Joined → List TranslationEvent → Type 0 where
  none_shown : {js : List Joined} → AreShown job js []
  left_out :
      {j : Joined} {js : List Joined} {events : List TranslationEvent}
      → AreShown job js events
      → AreShown job (j ∷ js) events
  shown :
      {result : LineResult} {answers : Answers} {js : List Joined} {events : List TranslationEvent}
      → result.outcome ≢ provider_skipped
      → answers.stopped ≡ false
      → answers.relevant ≡ true
      → answers.superseded ≡ false
      → AreShown job js events
      → AreShown job (joined result answers ∷ js) (partial_event job result ∷ events)

-- What a state of the loop has published since another one.
abbrev Added : QueuedJob → List Joined → Run → Run → Type 0
Added job js before after =
    (new : List TranslationEvent) × (after.events ≡ before.events ++ new) × AreShown job js new

not_skipped : (result : LineResult) → is_skipped result ≡ false → result.outcome ≢ provider_skipped
unfolding is_skipped
not_skipped result e o = absurd (ground arith)

events-noted : (result : LineResult) (run : Run) → (note_outcome result run).events ≡ run.events
unfolding note_outcome
events-noted result run = (elim result.outcome as (λ o. (noted o).events ≡ run.events) [
  | line_done ↦ refl
  | provider_skipped ↦ refl
  | timeout ↦ refl
  | error ↦ refl
])
  where
    noted : LineOutcome → Run
    noted o = note_outcome (record result { outcome = o }) run

settle-cases :
    (job : QueuedJob) (result : LineResult) (answers : Answers) (run : Run)
    → ((settle job result answers run).events ≡ run.events)
      ⊎ ((answers.relevant ≡ true)
          × (answers.superseded ≡ false)
          × ((settle job result answers run).events ≡ run.events ++ partial_event job result ∷ []))
unfolding settle drop_stale accept
settle-cases job result answers run = elim (Bool-cases answers.relevant) [
  | inr r ↦ rw (settle, r) (inl refl)
  | inl r ↦ elim (Bool-cases answers.superseded) [
    | inl p ↦ rw (settle, r, p) (inl refl)
    | inr p ↦ rw (settle, r, p) (inr (refl, refl, refl))
  ]
]

run_lines-skipped :
    (job : QueuedJob) (result : LineResult) (answers : Answers) (js : List Joined) (run : Run)
    → is_skipped result ≡ true
    → (run_lines job (joined result answers ∷ js) run).0 ≡ (run_lines job js (skip run)).0
unfolding run_lines
run_lines-skipped job result answers js run e = rw (run_lines, e) refl

run_lines-stopped :
    (job : QueuedJob) (result : LineResult) (answers : Answers) (js : List Joined) (run : Run)
    → is_skipped result ≡ false
    → answers.stopped ≡ true
    → (run_lines job (joined result answers ∷ js) run).0 ≡ note_outcome result run
unfolding run_lines
run_lines-stopped job result answers js run e f = rw (run_lines, e, f) refl

run_lines-settled :
    (job : QueuedJob) (result : LineResult) (answers : Answers) (js : List Joined) (run : Run)
    → is_skipped result ≡ false
    → answers.stopped ≡ false
    → (run_lines job (joined result answers ∷ js) run).0
      ≡ (run_lines job js (settle job result answers (note_outcome result run))).0
unfolding run_lines
run_lines-settled job result answers js run e f = rw (run_lines, e, f) refl

events_of : Run → List TranslationEvent
events_of run = run.events

Added-settle :
    (job : QueuedJob) (result : LineResult) (answers : Answers) (js : List Joined) (run after : Run)
    → is_skipped result ≡ false
    → answers.stopped ≡ false
    → Added job js (settle job result answers run) after
    → Added job (joined result answers ∷ js) run after
Added-settle job result answers js run after e f (new, a, s) =
    elim (settle-cases job result answers run) [
      | inl same ↦ (new, a ∙ ap (λ es. es ++ new) same, left_out s)
      | inr (r, p, more) ↦ (
        partial_event job result ∷ new,
        a ∙ ap (λ es. es ++ new) more ∙ append_assoc run.events (partial_event job result ∷ []) new,
        shown (not_skipped result e) f r p s,
      )
    ]

pub run_lines-Added :
    (job : QueuedJob) (js : List Joined) (run : Run) → Added job js run (run_lines job js run).0
unfolding run_lines skip events_of
run_lines-Added job [] run = ([], sym (append-nil run.events), none_shown)
run_lines-Added job (cancelled ∷ js) run = ([], sym (append-nil run.events), none_shown)
run_lines-Added job (panicked ∷ js) run =
    let (new, a, s) = run_lines-Added job js run in (new, a, left_out s)
run_lines-Added job (joined result answers ∷ js) run =
    let noted = note_outcome result run in
    let same_events = events-noted result run in
    elim (Bool-cases (is_skipped result)) [
      | inl e ↦
          let (new, a, s) = run_lines-Added job js (skip run) in
          (new, ap events_of (run_lines-skipped job result answers js run e) ∙ a, left_out s)
      | inr e ↦ elim (Bool-cases answers.stopped) [
        | inl f ↦ (
          [],
          ap events_of (run_lines-stopped job result answers js run e f)
              ∙ same_events
              ∙ sym (append-nil run.events),
          none_shown,
        )
        | inr f ↦
            let (new, a, s) =
              Added-settle job result answers js noted
                (run_lines job js (settle job result answers noted)).0 e f
                (run_lines-Added job js (settle job result answers noted)) in
            (
              new,
              ap events_of (run_lines-settled job result answers js run e f)
                  ∙ a
                  ∙ ap (λ es. es ++ new) same_events,
              s,
            )
      ]
    ]
