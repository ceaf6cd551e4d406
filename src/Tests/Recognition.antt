-- ===== src/Tests/Recognition.antt =====
-- Runs of the recognition, of the versions and of the speech planner, and their theorems at
-- concrete inputs.
use stream_sub_translator.Common.{
  ℕ, ◌≤◌, length, ◌≡◌, ◌≢◌, refl, Bool, true, false, none, some, Option, List, [], ◌∷◌, ◌++◌, map,
  Text, codes, Text-discrete, split_whitespace, trim, to_ascii_lowercase, decimal, same, arith,
}
use stream_sub_translator.Events.{
  TranscriptEvent, SubtitlePayloadEvent, SubtitleLineItem, source, completed_only,
}
use stream_sub_translator.Subtitle.Settings.{translation_required_for_display}
use stream_sub_translator.Subtitle.Lifecycle.{is_sequence_relevant_for_translation}
use stream_sub_translator.Subtitle.Lifecycle.Promotion.{initial_core}
use stream_sub_translator.Recognition.Segments.{initial_segments, trimmed, get_last_partial_text}
use stream_sub_translator.Recognition.Emission.{
  PartialEmitSettings, should_emit, normalize_transcript_text, char_delta, word_growth,
}
use stream_sub_translator.Recognition.Emission.Laws.{
  EmitCall, asked, cleared, emit_calls, should_emit_once, should_emit-grows,
}
use stream_sub_translator.Recognition.Source.{
  IngestedAsrUpdate, BrowserSpeechSource, Ingest, ingest_one, ingest_all,
}
use stream_sub_translator.Recognition.Source.Order.{counted_from, ingest_all-sequences}
use stream_sub_translator.Recognition.Source.Replay.{ingest-no_replay}
use stream_sub_translator.Recognition.Transcript.{
  handle_event, effects_before, apply_replacement, submit_final, event_source_lang,
  preview_lineage_key_from_segment, apply_effects, handle_event-relevant,
}
use stream_sub_translator.Version.{
  SemVer, Release, parse_semver, format_semver, extract_latest_github_release,
  is_prerelease_channel,
}
use stream_sub_translator.Version.RoundTrip.{parse-format}
use stream_sub_translator.Version.Latest.{IsLatest, extract-IsLatest}
use stream_sub_translator.Tts.Planner.{
  TtsSpeechSettings, new_planner, plan, PlannerCall, planned, released, serve_planner,
  stable_text_hash,
}
use stream_sub_translator.Tts.Planner.Once.{emits, Spares, plan-once}
use stream_sub_translator.Subtitle.Presentation.{has}
use stream_sub_translator.Tests.Subtitle.{same_order, config, hello}

abbrev update : ℕ → Bool → Text → IngestedAsrUpdate
update n is_final text = record {
  partial_text = text;
  final_text = [];
  is_final = is_final;
  source_lang = none;
  generation_id = 1;
  session_id = some (codes " s ");
  client_segment_id = some (codes "w-1");
  forced_final = false;
  transport_id = 1;
  worker_message_sequence = some n;
}

abbrev ingest : ℕ → Bool → Text → Ingest
ingest n is_final text = record {
  is_running = true;
  is_active = true;
  configured = none;
  update = update n is_final text;
}

abbrev idle_source : BrowserSpeechSource
idle_source = record {
  active_session_id = none;
  active_generation_id = 0;
  sequence_watermark = [];
  segments = initial_segments;
  stale_worker_events_ignored = 0;
}

-- The second update comes again as the third one.
abbrev ingests : List Ingest
ingests =
    ingest 4 false (codes "he")
    ∷ ingest 5 false (codes "hello")
    ∷ ingest 5 false (codes "hello")
    ∷ ingest 6 true (codes "hello there")
    ∷ []

ingest_run :
    map (λ (e : TranscriptEvent). e.sequence) (ingest_all ingests idle_source).1 ≡ 1 ∷ 2 ∷ 3 ∷ []
unfolding ingest_all trim trimmed decimal
ingest_run = refl

ingest_all-sequences_example :
    map (λ (e : TranscriptEvent). e.sequence) (ingest_all ingests idle_source).1
    ≡ counted_from 0 (length (ingest_all ingests idle_source).1)
unfolding ingest_all trim trimmed decimal
ingest_all-sequences_example = ingest_all-sequences ingests idle_source (omega arith)

abbrev the_event : Option TranscriptEvent → TranscriptEvent
the_event none = hello 0
the_event (some event) = event

ingest-no_replay_example :
    (ingest_one
      (ingest 4 true (codes "he"))
      (ingest_all
        (ingest 9 true (codes "x") ∷ [])
        (ingest_one (ingest 4 false (codes "he")) idle_source).0).0).1
    ≡ none
unfolding ingest_one trim trimmed decimal
ingest-no_replay_example =
    ingest-no_replay (ingest 4 false (codes "he")) (ingest 4 true (codes "he"))
      (ingest 9 true (codes "x") ∷ []) idle_source 4 4
      (the_event (ingest_one (ingest 4 false (codes "he")) idle_source).1) refl refl (omega arith)
      refl refl refl

handle_event-relevant_example :
    (handle_event (λ t. t) none (hello 7)
      ≡ effects_before (apply_replacement (λ t. t) (hello 7))
        ++ submit_final 7
            (codes "hello")
            (event_source_lang none (hello 7))
            (preview_lineage_key_from_segment none)
          ∷ [])
    × (is_sequence_relevant_for_translation same_order config 10 7 (
          apply_effects same_order config 10 1
            (effects_before (apply_replacement (λ t. t) (hello 7)))
            initial_core)
        ≡ true)
unfolding translation_required_for_display trim
handle_event-relevant_example =
    handle_event-relevant same_order config 10 1 (λ t. t) none (hello 7) initial_core refl refl

abbrev by_words : PartialEmitSettings
by_words = record {
  partial_emit_mode = word_growth;
  partial_min_new_words = 1;
  partial_min_delta_chars = 0;
  partial_coalescing_ms = 0;
}

abbrev by_chars : PartialEmitSettings
by_chars = record by_words { partial_emit_mode = char_delta; partial_min_delta_chars = 1 }

other_segment : codes "w-2" ≢ codes "w-1"
other_segment e = ground arith

-- Another segment speaks, and ends.
abbrev beside : List EmitCall
beside = asked by_words 6 (codes "w-2") (codes "hello there") ∷ cleared (codes "w-2") ∷ []

should_emit_once_example :
    should_emit by_chars 9 (codes "w-1") (codes "  hello  there") (
      emit_calls beside
        (should_emit by_words 5 (codes "w-1") (codes "hello there ") initial_segments).0)
    ≡ (
      emit_calls beside
          (should_emit by_words 5 (codes "w-1") (codes "hello there ") initial_segments).0,
      false,
    )
unfolding should_emit split_whitespace trim to_ascii_lowercase same
should_emit_once_example =
    should_emit_once by_words by_chars 5 9 (codes "w-1") (codes "hello there ")
      (codes "  hello  there") beside initial_segments refl (other_segment, (other_segment, tt))
      refl

should_emit-grows_example :
    (length (split_whitespace (get_last_partial_text (codes "w-1") initial_segments))
      ≤ length (split_whitespace (codes "hello there")))
    × (get_last_partial_text
          (codes "w-1")
          (should_emit by_words 5 (codes "w-1") (codes "hello there") initial_segments).0
        ≡ normalize_transcript_text (codes "hello there"))
unfolding should_emit split_whitespace trim to_ascii_lowercase same
should_emit-grows_example =
    should_emit-grows by_words 5 (codes "w-1") (codes "hello there") initial_segments refl refl

abbrev version : SemVer
version = record { major = 0; minor = 5; patch = 2; build = 10 }

format_run : format_semver version ≡ codes "0.5.2.10"
unfolding format_semver
format_run = refl

parse-format_example : parse_semver (format_semver version) ≡ some version
parse-format_example = parse-format version (omega arith) (omega arith) (omega arith) (omega arith)

abbrev release : Bool → Text → Option Release
release prerelease tag = some (record {
  draft = none;
  prerelease = some prerelease;
  tag_name = some tag;
  name = none;
  html_url = none;
})

abbrev releases : List (Option Release)
releases =
    release false (codes "v0.5.1")
    ∷ none
    ∷ release false (codes " v0.5.10-a ")
    ∷ release true (codes "v0.6.0")
    ∷ release false (codes "latest")
    ∷ []

latest_run :
    (extract_latest_github_release (some releases) (codes "stable")).0 ≡ some (codes "0.5.10")
unfolding extract_latest_github_release trim to_ascii_lowercase decimal
latest_run = refl

extract-IsLatest_example :
    IsLatest
      (is_prerelease_channel (codes "stable"))
      releases
      (extract_latest_github_release (some releases) (codes "stable")).0
extract-IsLatest_example = extract-IsLatest releases (codes "stable")

abbrev speech : TtsSpeechSettings
speech = record {
  speak_source = true;
  speak_translations = true;
  translation_slots = [];
  min_chars = 2;
  max_queue_items = 8;
}

hash_run : stable_text_hash (codes "a") ≡ 0xaf63dc4c8601ec8c
unfolding stable_text_hash
hash_run = refl

abbrev said : SubtitleLineItem
said = record {
  kind = source;
  lang = codes "en";
  label = codes "EN";
  text = codes "hello";
  style_slot = none;
  slot_id = none;
  target_lang = none;
  provider = none;
  visible = true;
  success = true;
  error = none;
}

abbrev spoken_payload : SubtitlePayloadEvent
spoken_payload = record {
  sequence = 7;
  source_lang = codes "en";
  source_text = codes "hello";
  provider = none;
  preset = codes "single";
  compact = false;
  display_order = [];
  show_source = true;
  show_translations = true;
  max_translation_languages = 0;
  items = said ∷ [];
  visible_items = said ∷ [];
  lifecycle_state = completed_only;
  completed_block_visible = true;
  completed_expires_at_utc = none;
  active_partial_text = [];
  active_partial_sequence = none;
  active_partial_source_lang = none;
  line1 = codes "hello";
  line2 = [];
  created_at_ms = none;
}

abbrev spoken_key : Text
spoken_key = codes "7:source::a430d84680aabd0b"

spoken_run : emits spoken_key (plan speech spoken_payload new_planner).1 ≡ true
unfolding plan trim to_ascii_lowercase same
spoken_run = refl

-- The payload again, after another key was released.
abbrev later_calls : List PlannerCall
later_calls = released (codes "other" ∷ []) ∷ planned speech spoken_payload ∷ []

plan-once_example :
    emits spoken_key (serve_planner later_calls (plan speech spoken_payload new_planner).0).1
    ≡ false
unfolding Spares has same Text-discrete
plan-once_example =
    plan-once speech spoken_payload new_planner spoken_key later_calls (omega arith) (omega arith)
      (refl, (omega arith, tt)) spoken_run
