-- ===== src/Subtitle/Router.antt =====
-- crates/voicesub-subtitle/src/router_actor.rs: the actor that owns the lifecycle, and the commands that it
-- serves. `router.rs` sends them; a sender of a reply is the reply that the command gives.
pub mod Actor
pub mod Publish
pub mod Tracked
use stream_sub_translator.Common.{
  ℕ, zero, suc, ◌+◌, ◌%◌, ◌^◌, Bool, true, false, ◌||◌, if◌then◌else◌, Option, none, some, List, [],
  ◌∷◌, ◌++◌, Text, codes, decimal, u64,
}
use stream_sub_translator.Events.{
  partial, final, TranscriptSegment, TranscriptEvent, TranslationEvent, SubtitlePayloadEvent,
}
use stream_sub_translator.Subtitle.Settings.{Config, or_default}
use stream_sub_translator.Subtitle.Presentation.{SubtitleRecord}
use stream_sub_translator.Subtitle.Lifecycle.{
  SubtitleLifecycleCore, record_of, is_sequence_relevant_for_presentation,
  is_sequence_relevant_for_translation,
}
use stream_sub_translator.Subtitle.Lifecycle.Promotion.{initial_core, reset, clear_active_partial}
use stream_sub_translator.Subtitle.Lifecycle.Handlers.{
  handle_transcript, handle_translation, on_expiry_tick,
}
use stream_sub_translator.Subtitle.Current.{build_presentation_payload}

-- The two flags, the two counters of the router, and what has been given to `publish`, the last
-- payload first.
pub record RouterInner : Type 0 where
  pub lifecycle : SubtitleLifecycleCore
  pub next_sequence : ℕ
  pub overlay_publish_pending : Bool
  pub overlay_publish_in_flight : Bool
  pub stale_count : ℕ
  pub mismatch_count : ℕ
  pub published : List SubtitlePayloadEvent

abbrev pub initial_inner : RouterInner
initial_inner = record {
  lifecycle = initial_core;
  next_sequence = 0;
  overlay_publish_pending = false;
  overlay_publish_in_flight = false;
  stale_count = 0;
  mismatch_count = 0;
  published = [];
}

pub data SourceCommand : Type 0 where
  transcript : TranscriptEvent → Bool → SourceCommand
  expiry_tick : ℕ → SourceCommand
  clear_partial reset_all republish flush_publish : SourceCommand
  ingest_browser_text : Text → Bool → Option Text → Option Text → SourceCommand
  query_translation_relevance query_presentation_relevance query_record : ℕ → SourceCommand

pub data TranslationCommand : Type 0 where
  translation : TranslationEvent → Bool → TranslationCommand

-- What a command sends back.
pub data Reply : Type 0 where
  processed : Reply
  ingested : ℕ → Reply
  relevant : Bool → Reply
  found : Option SubtitleRecord → Reply

abbrev processed_if : Bool → List Reply
processed_if true = processed ∷ []
processed_if false = []

-- The event that a text of the browser becomes.
unfoldable pub browser_event :
    Config → ℕ → Text → Bool → Option Text → Option Text → TranscriptEvent
unfolding decimal
browser_event config sequence text is_final source_lang provider = record {
  event = if is_final then final else partial;
  text = text;
  sequence = sequence;
  segment = some (record {
    segment_id = codes "browser-" ++ decimal sequence;
    text = text;
    is_final = is_final;
    source_lang = or_default (or_default (codes "auto") config.source_lang) source_lang;
    provider = provider;
    sequence = sequence;
    revision = 0;
    start_ms = none;
    end_ms = none;
  });
}

-- The configuration and the clock that a command reads, and the order of the keys of a map.
module _ (hash_order : List Text → List Text) (config : Config) (now now_utc : ℕ) where
  unfoldable pub publish_current : RouterInner → RouterInner
  unfolding build_presentation_payload
  publish_current inner =
      let built = build_presentation_payload hash_order config now inner.lifecycle in
      record inner {
        stale_count = u64 (inner.stale_count + built.stale_translation_suppressed);
        mismatch_count = u64 (inner.mismatch_count + built.payload_mismatch_count);
        published = built.payload ∷ inner.published;
      }

  -- The `loop` of `schedule_overlay_publish`.
  unfoldable pub publish_loop : ℕ → RouterInner → RouterInner
  unfolding publish_current
  publish_loop zero inner = inner
  publish_loop (suc fuel) inner =
      let shown = publish_current inner in
      elim shown.overlay_publish_pending [
        | true ↦ publish_loop fuel (record shown { overlay_publish_pending = false })
        | false ↦ record shown { overlay_publish_in_flight = false }
      ]

  unfoldable pub schedule_overlay_publish : RouterInner → RouterInner
  unfolding publish_loop
  schedule_overlay_publish inner =
      if inner.overlay_publish_in_flight
      then record inner { overlay_publish_pending = true }
      else publish_loop 2
          (record inner { overlay_publish_in_flight = true; overlay_publish_pending = false })

  unfoldable pub flush_overlay_publish : RouterInner → RouterInner
  unfolding schedule_overlay_publish
  flush_overlay_publish inner =
      schedule_overlay_publish (record inner { overlay_publish_pending = false })

  unfoldable pub apply_transcript : TranscriptEvent → RouterInner → RouterInner
  unfolding handle_transcript
  apply_transcript event inner = record inner {
    lifecycle = handle_transcript hash_order config now now_utc event inner.lifecycle;
  }

  unfoldable pub apply_translation : TranslationEvent → RouterInner → RouterInner
  unfolding handle_translation
  apply_translation event inner = record inner {
    lifecycle = handle_translation hash_order config now now_utc event inner.lifecycle;
  }

  unfoldable pub ingest : Text → Bool → Option Text → Option Text → RouterInner → RouterInner × ℕ
  unfolding browser_event apply_transcript
  ingest text is_final source_lang provider inner =
      let sequence = u64 (inner.next_sequence + 1) in
      (
        apply_transcript (browser_event config sequence text is_final source_lang provider)
            (record inner { next_sequence = sequence }),
        sequence,
      )

  unfoldable pub process_translation_command :
      TranslationCommand → RouterInner → RouterInner × List Reply
  unfolding apply_translation schedule_overlay_publish
  process_translation_command (translation event wants) inner =
      (schedule_overlay_publish (apply_translation event inner), processed_if wants)

  -- Everything that waits in the queue of translations; none when its senders are gone.
  unfoldable pub drain_translation_queue :
      List TranslationCommand → RouterInner → RouterInner × List Reply
  unfolding process_translation_command
  drain_translation_queue [] inner = (inner, [])
  drain_translation_queue (command ∷ commands) inner =
      let one = process_translation_command command inner in
      let rest = drain_translation_queue commands one.0 in (rest.0, one.1 ++ rest.1)

  abbrev pub is_any {ℓ} : {A : Type ℓ} → List A → Bool
  is_any [] = false
  is_any (x ∷ xs) = true

  -- `process_source`: the state, the translations that still wait, and the replies in order.
  unfoldable pub process_source :
      SourceCommand
      → List TranslationCommand
      → RouterInner
      → RouterInner × List TranslationCommand × List Reply
  unfolding apply_transcript schedule_overlay_publish flush_overlay_publish on_expiry_tick
      clear_active_partial drain_translation_queue ingest is_sequence_relevant_for_translation
      is_sequence_relevant_for_presentation record_of
  process_source (transcript event wants) waiting inner =
      (schedule_overlay_publish (apply_transcript event inner), waiting, processed_if wants)
  process_source (expiry_tick sequence) waiting inner = (
    schedule_overlay_publish (record inner {
      lifecycle = on_expiry_tick hash_order config now now_utc sequence inner.lifecycle;
    }),
    waiting,
    [],
  )
  process_source clear_partial waiting inner = (
    schedule_overlay_publish (record inner { lifecycle = clear_active_partial inner.lifecycle }),
    waiting,
    [],
  )
  process_source reset_all waiting inner = (
    flush_overlay_publish (
        schedule_overlay_publish
          (record inner { lifecycle = reset inner.lifecycle; next_sequence = 0 })),
    waiting,
    processed ∷ [],
  )
  process_source republish waiting inner = (schedule_overlay_publish inner, waiting, processed ∷ [])
  process_source flush_publish waiting inner =
      let drained = drain_translation_queue waiting inner in
      (
        (if is_any waiting
              || (drained.0.overlay_publish_pending || drained.0.overlay_publish_in_flight)
            then schedule_overlay_publish drained.0
            else drained.0),
        [],
        drained.1 ++ processed ∷ [],
      )
  process_source (ingest_browser_text text is_final source_lang provider) waiting inner =
      let done = ingest text is_final source_lang provider inner in
      (flush_overlay_publish (schedule_overlay_publish done.0), waiting, ingested done.1 ∷ [])
  process_source (query_translation_relevance sequence) waiting inner = (
    inner,
    waiting,
    relevant (is_sequence_relevant_for_translation hash_order config now sequence inner.lifecycle)
        ∷ [],
  )
  process_source (query_presentation_relevance sequence) waiting inner = (
    inner,
    waiting,
    relevant (is_sequence_relevant_for_presentation hash_order config now sequence inner.lifecycle)
        ∷ [],
  )
  process_source (query_record sequence) waiting inner =
      (inner, waiting, found (record_of sequence inner.lifecycle) ∷ [])
