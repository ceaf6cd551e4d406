-- ===== src/Subtitle/Lifecycle/Handlers.antt =====
-- crates/voicesub-subtitle/src/lifecycle.rs: the handlers of transcripts, translations and expiry ticks.
use stream_sub_translator.Common.{
  ℕ, ◌-◌, ltb, all, Bool, true, false, not, ◌&&◌, ◌||◌, if◌then◌else◌, Option, none, some, List, [],
  ◌∷◌, Text, Text-discrete, ℕ_discrete, codes, is_empty, trim, to_ascii_lowercase, lookup, insert,
  keys,
}
use stream_sub_translator.Events.{
  partial, final, TranscriptSegment, TranscriptEvent, TranslationItem, TranslationEvent,
}
use stream_sub_translator.Subtitle.Settings.{
  Config, or_default, translation_slot_map, legacy_language_to_slot_map,
  translation_required_for_display,
}
use stream_sub_translator.Subtitle.Presentation.{TranslationEntry, SubtitleRecord, has}
use stream_sub_translator.Subtitle.Lifecycle.{
  ActivePartial, SubtitleLifecycleCore, record_of, is_sequence, is_there,
  sequence_has_incomplete_translations, current_completed_payload, promotion_payload,
}
use stream_sub_translator.Subtitle.Lifecycle.Promotion.{
  prune_old_records, schedule_next_expiry_check, clear_expiry, promote_or_defer,
  maybe_flush_pending_when_unblocked,
}

-- `(end - start).max(0)`, on natural numbers.
unfoldable pub duration_ms : Option TranscriptSegment → Option ℕ
duration_ms none = none
duration_ms (some s) = elim s.end_ms [
  | none ↦ none
  | some end_at ↦ some (end_at - or_default 0 s.start_ms)
]

source_lang_of : Config → Option TranscriptSegment → Text
source_lang_of config none = or_default (codes "auto") config.source_lang
source_lang_of config (some s) = s.source_lang

unfoldable pub provider_of : Option TranscriptSegment → Option Text
provider_of none = none
provider_of (some s) = s.provider

partial_of : Config → TranscriptEvent → ActivePartial
unfolding source_lang_of provider_of
partial_of config event = record {
  sequence = event.sequence;
  text = event.text;
  source_lang = source_lang_of config event.segment;
  provider = provider_of event.segment;
}

unfoldable pub final_record : Config → ℕ → ℕ → TranscriptEvent → SubtitleRecord
unfolding source_lang_of provider_of duration_ms translation_required_for_display
final_record config now now_utc event = record {
  sequence = event.sequence;
  source_text = event.text;
  source_lang = source_lang_of config event.segment;
  translations = [];
  provider = provider_of event.segment;
  translation_received = not (translation_required_for_display config);
  duration_ms = duration_ms event.segment;
  finalized_at_utc = some now_utc;
  finalized_at_monotonic = some now;
}

abbrev pub newest : ℕ → Option ℕ → Option ℕ
newest s none = some s
newest s (some n) = if ltb n s then some s else some n

-- What a final does before it prunes.
unfoldable pub note_final :
    Config → ℕ → ℕ → TranscriptEvent → SubtitleLifecycleCore → SubtitleLifecycleCore
unfolding partial_of final_record
note_final config now now_utc event core = record core {
  records = insert ℕ_discrete event.sequence (final_record config now now_utc event) core.records;
  active_partial = some (partial_of config event);
  pending_final_sequence = some event.sequence;
  latest_final_sequence = newest event.sequence core.latest_final_sequence;
}

-- The slot and the key of a translation: by its slot, or by its language where it names none.
slot_of : List (Text × Text) → TranslationItem → Text
slot_of language_to_slot item =
    let slot_id = to_ascii_lowercase (trim (or_default [] item.slot_id)) in
    if is_empty slot_id
    then or_default []
        (lookup Text-discrete (to_ascii_lowercase (trim item.target_lang)) language_to_slot)
    else slot_id

entry_of : Text → TranslationItem → TranslationEntry
entry_of slot_id item = record {
  slot_id = if is_empty slot_id then item.slot_id else some slot_id;
  target_lang = item.target_lang;
  label = item.label;
  text = item.text;
  provider = item.provider;
  success = item.success;
  error = item.error;
}

add_entry :
    List (Text × Text)
    → TranslationItem
    → List (Text × TranslationEntry)
    → List (Text × TranslationEntry)
unfolding slot_of entry_of
add_entry language_to_slot item entries =
    let slot_id = slot_of language_to_slot item in
    let key = if is_empty slot_id then to_ascii_lowercase (trim item.target_lang) else slot_id in
    if is_empty key then entries else insert Text-discrete key (entry_of slot_id item) entries

add_entries :
    List (Text × Text)
    → List TranslationItem
    → List (Text × TranslationEntry)
    → List (Text × TranslationEntry)
unfolding add_entry
add_entries language_to_slot [] entries = entries
add_entries language_to_slot (item ∷ items) entries =
    add_entries language_to_slot items (add_entry language_to_slot item entries)

-- `or_insert_with`: a translation may come before its final.
unfoldable pub record_or_new : TranslationEvent → Option SubtitleRecord → SubtitleRecord
record_or_new event (some record') = record'
record_or_new event none = record {
  sequence = event.sequence;
  source_text = event.source_text;
  source_lang = event.source_lang;
  translations = [];
  provider = some event.provider;
  translation_received = true;
  duration_ms = none;
  finalized_at_utc = none;
  finalized_at_monotonic = none;
}

update_record : Config → TranslationEvent → SubtitleRecord → SubtitleRecord
unfolding add_entries translation_slot_map legacy_language_to_slot_map has
update_record config event record' =
    let entries =
      add_entries (legacy_language_to_slot_map config.translation) event.translations
        record'.translations in
    let required = keys (translation_slot_map config.translation) in
    record record' {
      source_text = event.source_text;
      source_lang = event.source_lang;
      provider = some event.provider;
      translations = entries;
      translation_received = event.is_complete || all (λ slot. has slot (keys entries)) required;
    }

unfoldable pub note_translation :
    Config → TranslationEvent → SubtitleLifecycleCore → SubtitleLifecycleCore
unfolding update_record record_or_new record_of
note_translation config event core = record core {
  records =
      insert ℕ_discrete event.sequence
        (update_record config event (record_or_new event (record_of event.sequence core)))
        core.records;
}

unfoldable pub should_promote : ℕ → SubtitleLifecycleCore → Bool
should_promote sequence core =
    is_sequence sequence core.pending_final_sequence
    || (is_sequence sequence core.completed_sequence
        || (not (is_there core.pending_final_sequence)
            && (not (is_there core.completed_sequence)
                && is_sequence sequence core.latest_final_sequence)))

abbrev pub without_completed : SubtitleLifecycleCore → SubtitleLifecycleCore
without_completed core = clear_expiry (record core { completed_sequence = none })

module _ (hash_order : List Text → List Text) (config : Config) (now now_utc : ℕ) where
  unfoldable pub handle_transcript : TranscriptEvent → SubtitleLifecycleCore → SubtitleLifecycleCore
  unfolding partial_of note_final prune_old_records promote_or_defer
  handle_transcript event core = elim event.event [
    | partial ↦ record core { active_partial = some (partial_of config event) }
    | final ↦
        promote_or_defer hash_order config now now_utc event.sequence
          (prune_old_records (note_final config now now_utc event core))
  ]

  unfoldable pub handle_translation :
      TranslationEvent → SubtitleLifecycleCore → SubtitleLifecycleCore
  unfolding note_translation should_promote promote_or_defer maybe_flush_pending_when_unblocked
  handle_translation event core =
      let noted = note_translation config event core in
      maybe_flush_pending_when_unblocked hash_order config now now_utc (
        if should_promote event.sequence noted
        then promote_or_defer hash_order config now now_utc event.sequence noted
        else noted)

  -- Whether the completed block has something to show, or to wait for.
  unfoldable pub must_stay : ℕ → SubtitleLifecycleCore → Bool
  unfolding current_completed_payload promotion_payload sequence_has_incomplete_translations
  must_stay sequence core =
      is_there (current_completed_payload hash_order config now false core)
      || (is_there (promotion_payload hash_order config now sequence core)
          || sequence_has_incomplete_translations hash_order config now sequence core)

  unfoldable pub clear_completed : SubtitleLifecycleCore → SubtitleLifecycleCore
  unfolding promote_or_defer
  clear_completed core = elim core.pending_final_sequence [
    | none ↦ without_completed core
    | some pending ↦ promote_or_defer hash_order config now now_utc pending (without_completed core)
  ]

  unfoldable pub on_expiry_tick : ℕ → SubtitleLifecycleCore → SubtitleLifecycleCore
  unfolding must_stay clear_completed schedule_next_expiry_check maybe_flush_pending_when_unblocked
  on_expiry_tick sequence core =
      if not (is_sequence sequence core.completed_sequence)
      then core
      else if must_stay sequence core
      then maybe_flush_pending_when_unblocked hash_order config now now_utc
          (schedule_next_expiry_check now now_utc core)
      else clear_completed core
