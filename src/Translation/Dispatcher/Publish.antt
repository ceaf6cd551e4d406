-- ===== src/Translation/Dispatcher/Publish.antt =====
-- crates/voicesub-translation/src/dispatcher.rs: `run_job` and `translate_one_line`. The answers that they
-- get while they run (relevance, generations, `stopped`, the providers' results in the order in
-- which they come in) are an argument; the events that they publish are the result.
pub mod Order
pub mod Shown
use stream_sub_translator.Common.{
  ℕ, ◌+◌, Bool, true, false, not, ◌&&◌, ◌||◌, if◌then◌else◌, leb, Option, none, some, List, [], ◌∷◌,
  ◌++◌, length, Text, Text-discrete, codes, same, is_empty, any,
}
use stream_sub_translator.Events.{TranslationItem, TranslationEvent}
use stream_sub_translator.Translation.Dispatcher.{QueuedJob}

pub record PreparedLine : Type 0 where
  pub slot_id : Text
  pub target_lang : Text
  pub provider_name : Text
  pub provider_group : Text
  pub experimental : Bool
  pub local_provider : Bool
  pub label : Text

pub record PreparedRequest : Type 0 where
  pub provider_name : Text
  pub provider_group : Text
  pub experimental : Bool
  pub local_provider : Bool
  pub lines : List PreparedLine

pub data LineOutcome : Type 0 where
  line_done timeout error provider_skipped : LineOutcome

pub record LineResult : Type 0 where
  pub item : TranslationItem
  pub outcome : LineOutcome
  pub reason : Option Text
  pub status_message : Option Text

-- An item with no text, of a line that was skipped or timed out.
unfoldable pub failed_item : PreparedLine → Option Text → TranslationItem
failed_item line message = record {
  target_lang = line.target_lang;
  text = [];
  provider = line.provider_name;
  slot_id = some line.slot_id;
  label = some line.label;
  provider_group = some line.provider_group;
  experimental = line.experimental;
  local_provider = line.local_provider;
  success = false;
  error = message;
  cached = false;
}

skipped : PreparedLine → Text → LineResult
skipped line why = record {
  item = failed_item line none;
  outcome = provider_skipped;
  reason = some why;
  status_message = none;
}

translated : TranslationItem → Option Text → LineResult
translated item status = record {
  item = item;
  outcome = if item.success then line_done else error;
  reason = if item.success then some (codes "success") else status;
  status_message = status;
}

timed_out : PreparedLine → Text → LineResult
timed_out line digits = record {
  item = failed_item line (some (codes "Translation timed out after " ++ digits ++ codes " ms."));
  outcome = timeout;
  reason = some (codes "timeout_after_" ++ digits ++ codes "_ms");
  status_message = some (codes "Translation target timed out.");
}

-- `timed` is `none` if the time ran out; `digits` are those of the timeout in milliseconds.
translate_one_line :
    PreparedLine → Bool → Bool → Option (TranslationItem × Option Text) → Text → LineResult
unfolding failed_item skipped translated timed_out
translate_one_line line is_relevant is_superseded timed digits =
    if not is_relevant
    then skipped line (codes "sequence_not_relevant_before_provider")
    else if is_superseded
    then skipped line (codes "preview_superseded_before_provider")
    else elim timed [ none ↦ timed_out line digits | some (item, status) ↦ translated item status ]

-- What `run_job` meets: its own cancellation, a line task that panicked, or a line's result with
-- the answers to `is_stopped`, `is_relevant` and `is_preview_superseded` after it.
pub record Answers : Type 0 where
  pub stopped : Bool
  pub relevant : Bool
  pub superseded : Bool

pub data Joined : Type 0 where
  cancelled : Joined
  panicked : Joined
  joined : LineResult → Answers → Joined

-- What a run leaves: the events that it published, the counters, and `last_runtime_reason`.
pub record Run : Type 0 where
  pub events : List TranslationEvent
  pub published : List TranslationItem
  pub final_status : Option Text
  pub stale_dropped : ℕ
  pub provider_skipped_count : ℕ
  pub last_runtime_reason : Option Text

unfoldable pub partial_event : QueuedJob → LineResult → TranslationEvent
partial_event job result = record {
  sequence = job.sequence;
  source_text = job.source_text;
  source_lang = job.source_lang;
  translations = result.item ∷ [];
  provider = result.item.provider;
  provider_group = result.item.provider_group;
  experimental = result.item.experimental;
  local_provider = result.item.local_provider;
  used_default_prompt = false;
  status_message = result.status_message;
  is_complete = false;
}

abbrev or_else : Option Text → Option Text → Option Text
or_else none b = b
or_else (some a) b = some a

note_outcome : LineResult → Run → Run
note_outcome result run = elim result.outcome [
  | line_done ↦ run
  | provider_skipped ↦ run
  | timeout ↦ record run { last_runtime_reason = or_else result.reason result.item.error }
  | error ↦ record run { last_runtime_reason = or_else result.reason result.item.error }
]

drop_stale : Text → Run → Run
drop_stale why run = record run {
  stale_dropped = run.stale_dropped + 1;
  last_runtime_reason = some why;
}

accept : QueuedJob → LineResult → Run → Run
unfolding partial_event
accept job result run = record run {
  events = run.events ++ partial_event job result ∷ [];
  published = run.published ++ result.item ∷ [];
  final_status = or_else result.status_message run.final_status;
}

skip : Run → Run
skip run = record run { provider_skipped_count = run.provider_skipped_count + 1 }

-- One result of a line that was not skipped, once `is_stopped` has said no.
settle : QueuedJob → LineResult → Answers → Run → Run
unfolding accept drop_stale
settle job result answers run =
    if not answers.relevant
    then drop_stale (codes "stale:target_result_arrived_late") run
    else if answers.superseded
    then drop_stale (codes "stale:preview_superseded") run
    else accept job result run

is_skipped : LineResult → Bool
is_skipped result = elim result.outcome [ provider_skipped ↦ true | _ ↦ false ]

-- The loop over the results. The flag is true if the loop ended by itself, and not by a return.
unfoldable pub run_lines : QueuedJob → List Joined → Run → Run × Bool
unfolding settle note_outcome skip is_skipped
run_lines job [] run = (run, true)
run_lines job (cancelled ∷ js) run = (run, false)
run_lines job (panicked ∷ js) run = run_lines job js run
run_lines job (joined result answers ∷ js) run = elim (is_skipped result) [
  | true ↦ run_lines job js (skip run)
  | false ↦ elim answers.stopped [
    | true ↦ (note_outcome result run, false)
    | false ↦ run_lines job js (settle job result answers (note_outcome result run))
  ]
]

-- `completion_provider_name`: "mixed" where two items name different providers.
distinct_providers : List Text → List TranslationItem → List Text
distinct_providers seen [] = seen
distinct_providers seen (item ∷ items) =
    distinct_providers
      (if is_empty item.provider || any (same item.provider) seen
        then seen
        else item.provider ∷ seen)
      items

completion_provider_name : PreparedRequest → List TranslationItem → Text
unfolding distinct_providers same
completion_provider_name prepared published =
    if leb (length (distinct_providers [] published)) 1
    then prepared.provider_name
    else codes "mixed"

unfoldable pub completion_event : QueuedJob → PreparedRequest → Run → TranslationEvent
unfolding completion_provider_name
completion_event job prepared run = record {
  sequence = job.sequence;
  source_text = job.source_text;
  source_lang = job.source_lang;
  translations = run.published;
  provider = completion_provider_name prepared run.published;
  provider_group = some prepared.provider_group;
  experimental = prepared.experimental;
  local_provider = prepared.local_provider;
  used_default_prompt = false;
  status_message = run.final_status;
  is_complete = true;
}

-- What `run_job` reads before the lines are started, and after the last of them.
pub record JobAnswers : Type 0 where
  pub enabled : Bool
  pub fail_prepare : Option Text
  pub at_start : Answers
  pub prepared : PreparedRequest
  pub results : List Joined
  pub at_end : Answers

abbrev pub no_run : Run
no_run = record {
  events = [];
  published = [];
  final_status = none;
  stale_dropped = 0;
  provider_skipped_count = 0;
  last_runtime_reason = none;
}

complete : QueuedJob → PreparedRequest → Answers → Run × Bool → Run
unfolding completion_event
complete job prepared answers (run, ended) =
    if ended && not answers.superseded && not answers.stopped && answers.relevant
    then record run { events = run.events ++ completion_event job prepared run ∷ [] }
    else run

no_lines : PreparedRequest → Bool
no_lines prepared = elim prepared.lines [ [] ↦ true | _ ↦ false ]

-- `run_job` once translation is known to be enabled, by the message of a failed preparation.
started : QueuedJob → JobAnswers → Option Text → Run
unfolding drop_stale run_lines complete no_lines
started job a (some why) = record no_run { last_runtime_reason = some (codes "job_error:" ++ why) }
started job a none =
    if not a.at_start.relevant
    then drop_stale (codes "stale:job_not_relevant") no_run
    else if a.at_start.superseded
    then drop_stale (codes "stale:preview_superseded") no_run
    else if no_lines a.prepared
    then no_run
    else complete job a.prepared a.at_end (run_lines job a.results no_run)

unfoldable pub run_job : QueuedJob → JobAnswers → Run
unfolding started
run_job job a = if not a.enabled then no_run else started job a a.fail_prepare
