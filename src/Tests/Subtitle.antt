-- ===== src/Tests/Subtitle.antt =====
-- Runs of the subtitle functions, and their theorems at concrete inputs.
use stream_sub_translator.Common.{
  ℕ, ◌≤◌, ◌≡◌, refl, ◌⊎◌, true, false, none, some, List, [], ◌∷◌, length, keep, all, keys, codes,
  to_ascii_lowercase, trim, insert, lookup, remove, Text, arith,
}
use stream_sub_translator.Events.{TranscriptEvent, TranslationEvent, TranslationItem, final}
use stream_sub_translator.Subtitle.Settings.{
  translation_required_for_display, Config, LineConfig, translation_slot_map,
}
use stream_sub_translator.Subtitle.Presentation.{
  SubtitleRecord, has, source_code, resolved_display_order, build_payload, is_shown, is_translation,
}
use stream_sub_translator.Subtitle.Presentation.Order.{is_distinct, display_order-distinct}
use stream_sub_translator.Subtitle.Presentation.Lines.{build_payload-visible}
use stream_sub_translator.Subtitle.Lifecycle.{
  is_sequence_relevant_for_presentation, is_sequence_relevant_for_translation,
  SubtitleLifecycleCore, is_there, record_of,
}
use stream_sub_translator.Subtitle.Lifecycle.Promotion.{
  initial_core, prune_old_records, records_max,
}
use stream_sub_translator.Subtitle.Lifecycle.Handlers.{handle_transcript, final_record}
use stream_sub_translator.Subtitle.Lifecycle.Invariant.{IsTracked}
use stream_sub_translator.Subtitle.Lifecycle.Bounds.{prune_old_records-bounded}
use stream_sub_translator.Subtitle.Lifecycle.Relevance.{handle_transcript-relevant}
use stream_sub_translator.Subtitle.Lifecycle.Steps.{handle_transcript-final}
use stream_sub_translator.Subtitle.Lifecycle.Sessions.{
  Moment, transcript, translated, tick, session, session-IsTracked, latest-session, IsLargest,
  counted,
}

abbrev pub same_order : List Text → List Text
same_order ts = ts

abbrev pub line : LineConfig
line = record {
  enabled = none;
  slot_id = some (codes "translation_1");
  target_lang = some (codes "de");
  label = none;
}

abbrev pub config : Config
config = record {
  source_lang = some (codes "en");
  translation = some (record { enabled = some true; lines = some (some line ∷ []) });
  subtitle_output = some (record {
    show_source = some true;
    show_translations = none;
    max_translation_languages = some 2;
    display_order =
        some (some (codes "DE") ∷ none ∷ some (codes "source") ∷ some (codes "de") ∷ []);
  });
  lifecycle = record {
    completed_block_ttl_ms = none;
    completed_source_ttl_ms = none;
    completed_translation_ttl_ms = none;
    pause_to_finalize_ms = none;
    hard_max_phrase_ms = none;
    allow_early_replace_on_next_final = none;
    sync_source_and_translation_expiry = none;
    keep_completed_translation_during_active_partial = none;
    finalization_hold_ms = none;
    max_segment_ms = none;
  };
  preset = none;
  compact = none;
}

abbrev pub hello : ℕ → TranscriptEvent
hello n = record { event = final; text = codes "hello"; sequence = n; segment = none }

abbrev pub hallo : TranslationItem
hallo = record {
  target_lang = codes "de";
  text = codes "hallo";
  provider = codes "p";
  slot_id = none;
  label = none;
  provider_group = none;
  experimental = false;
  local_provider = false;
  success = true;
  error = none;
  cached = false;
}

abbrev pub answer : TranslationEvent
answer = record {
  sequence = 7;
  source_text = codes "hello";
  source_lang = codes "en";
  translations = hallo ∷ [];
  provider = codes "p";
  provider_group = none;
  experimental = false;
  local_provider = false;
  used_default_prompt = false;
  status_message = none;
  is_complete = true;
}

-- Two finals, the second with a smaller sequence, the translation of the first, and its expiry.
abbrev moments : List Moment
moments =
    record { config = config; now = 10; now_utc = 1; call = transcript (hello 7) }
    ∷ record { config = config; now = 20; now_utc = 1; call = transcript (hello 6) }
    ∷ record { config = config; now = 900; now_utc = 2; call = translated answer }
    ∷ record { config = config; now = 9_000; now_utc = 10; call = tick 7 }
    ∷ []

display_order_run :
    resolved_display_order same_order config ≡ codes "translation_1" ∷ codes "source" ∷ []
unfolding resolved_display_order to_ascii_lowercase trim insert lookup
display_order_run = refl

session_run : (session same_order moments initial_core).completed_sequence ≡ some 6
unfolding session to_ascii_lowercase trim insert lookup remove
session_run = refl

display_order-distinct_example :
    (is_distinct (resolved_display_order same_order config) ≡ true)
    × (has source_code (resolved_display_order same_order config) ≡ true)
    × (all
          (λ slot. has slot (resolved_display_order same_order config))
          (same_order (keys (translation_slot_map config.translation)))
        ≡ true)
display_order-distinct_example = display_order-distinct same_order config

abbrev pub record_seven : SubtitleRecord
unfolding final_record
record_seven = final_record config 10 1 (hello 7)

build_payload-visible_example :
    ((build_payload same_order config 7 record_seven).visible_items
      ≡ keep is_shown (build_payload same_order config 7 record_seven).items)
    × (length (keep is_translation (build_payload same_order config 7 record_seven).visible_items)
        ≤ (build_payload same_order config 7 record_seven).max_translation_languages)
    × ((build_payload same_order config 7 record_seven).max_translation_languages ≤ 5)
build_payload-visible_example = build_payload-visible same_order config 7 record_seven

session-IsTracked_example : IsTracked (session same_order moments initial_core)
session-IsTracked_example = session-IsTracked same_order moments initial_core (refl, refl, refl)

latest-session_example :
    IsLargest (session same_order moments initial_core).latest_final_sequence (counted moments [])
latest-session_example = latest-session same_order moments initial_core [] refl

handle_transcript-final_example :
    ((handle_transcript same_order config 10 1 (hello 7) initial_core).completed_sequence ≡ some 7
      ⊎ (handle_transcript same_order config 10 1 (hello 7) initial_core).pending_final_sequence
        ≡ some 7)
    × (is_there (record_of 7 (handle_transcript same_order config 10 1 (hello 7) initial_core))
        ≡ true)
handle_transcript-final_example =
    handle_transcript-final same_order config 10 1 (hello 7) initial_core refl

abbrev one_record : SubtitleLifecycleCore
one_record = record initial_core { records = (7, record_seven) ∷ []; completed_sequence = some 7 }

prune_old_records-bounded_example : length (prune_old_records one_record).records ≤ records_max
prune_old_records-bounded_example = prune_old_records-bounded one_record (λ n. ground arith)

handle_transcript-relevant_example :
    (is_sequence_relevant_for_presentation same_order config 10 7
        (handle_transcript same_order config 10 1 (hello 7) initial_core)
      ≡ true)
    × (is_sequence_relevant_for_translation same_order config 10 7
          (handle_transcript same_order config 10 1 (hello 7) initial_core)
        ≡ true)
unfolding translation_required_for_display trim
handle_transcript-relevant_example =
    handle_transcript-relevant same_order config 10 1 (hello 7) initial_core refl refl
