-- ===== src/Recognition/Transcript.antt =====
-- crates/voicesub-runtime/src/transcript_controller.rs: what becomes of a transcript event. The replacement of
-- texts, which rests on regular expressions, is a parameter.
use stream_sub_translator.Common.{
  ℕ, inl, inr, Option-cases, ◌≡◌, refl, ap, ◌∙◌, Bool, true, false, Option, none, some, List, [],
  ◌∷◌, ◌++◌, Text, codes, trim, to_ascii_lowercase, decimal,
}
use stream_sub_translator.Events.{partial, final, TranscriptSegment, TranscriptEvent}
use stream_sub_translator.Subtitle.Settings.{Config, or_default, translation_required_for_display}
use stream_sub_translator.Subtitle.Lifecycle.{
  SubtitleLifecycleCore, is_sequence_relevant_for_translation,
}
use stream_sub_translator.Subtitle.Lifecycle.Handlers.{handle_transcript}
use stream_sub_translator.Subtitle.Lifecycle.Relevance.{handle_transcript-relevant}
use stream_sub_translator.Translation.Lineage.{lineage_key}

-- What the controller does, in order: a broadcast to the web socket's clients, a call of the
-- subtitle router, a caption, and a job for the translation.
pub data Effect : Type 0 where
  broadcast_channel : Text → TranscriptEvent → Effect
  routed : TranscriptEvent → Effect
  publish_source : Text → Bool → Effect
  submit_final : ℕ → Text → Text → Option Text → Effect

abbrev with_text : Text → Option TranscriptSegment → Option TranscriptSegment
with_text text none = none
with_text text (some segment) = some (record segment { text = text })

unfoldable pub apply_replacement : (Text → Text) → TranscriptEvent → TranscriptEvent
apply_replacement replace event =
    let replaced = replace event.text in
    record event { text = replaced; segment = with_text replaced event.segment }

default_source_lang : Option Text → Text
unfolding trim to_ascii_lowercase
default_source_lang configured = to_ascii_lowercase (trim (or_default (codes "auto") configured))

unfoldable pub event_source_lang : Option Text → TranscriptEvent → Text
unfolding default_source_lang trim to_ascii_lowercase
event_source_lang configured event = elim event.segment [
  | none ↦ to_ascii_lowercase (trim (default_source_lang configured))
  | some segment ↦ to_ascii_lowercase (trim segment.source_lang)
]

unfoldable pub preview_lineage_key_from_segment : Option TranscriptSegment → Option Text
unfolding lineage_key decimal
preview_lineage_key_from_segment none = none
preview_lineage_key_from_segment (some segment) =
    lineage_key (some segment.segment_id) (some (decimal segment.revision))

abbrev is_final_event : TranscriptEvent → Bool
is_final_event event = elim event.event [ partial ↦ false | final ↦ true ]

publish_transcript : TranscriptEvent → List Effect
publish_transcript event =
    broadcast_channel (codes "transcript_update") event
    ∷ broadcast_channel (codes "transcript_segment_event") event
    ∷ []

-- What comes before the job, for an event whose text has been replaced.
unfoldable pub effects_before : TranscriptEvent → List Effect
unfolding publish_transcript
effects_before event =
    publish_transcript event ++ routed event ∷ publish_source event.text (is_final_event event) ∷ []

job_of : Option Text → TranscriptEvent → Effect
unfolding event_source_lang preview_lineage_key_from_segment
job_of configured event =
    submit_final event.sequence event.text (event_source_lang configured event)
      (preview_lineage_key_from_segment event.segment)

unfoldable pub handle_event : (Text → Text) → Option Text → TranscriptEvent → List Effect
unfolding apply_replacement effects_before job_of
handle_event replace configured event =
    let replaced = apply_replacement replace event in
    elim event.event [
      | partial ↦ effects_before replaced
      | final ↦ effects_before replaced ++ job_of configured replaced ∷ []
    ]

job_of-replaced :
    (replace : Text → Text) (configured : Option Text) (event : TranscriptEvent)
    → job_of configured (apply_replacement replace event)
      ≡ submit_final event.sequence
          (replace event.text)
          (event_source_lang configured event)
          (preview_lineage_key_from_segment event.segment)
unfolding job_of apply_replacement event_source_lang preview_lineage_key_from_segment
job_of-replaced replace configured event = elim (Option-cases event.segment) [
  | inl e ↦ rw (job_of, e) refl
  | inr (segment, e) ↦ rw (job_of, e) refl
]

module _ (hash_order : List Text → List Text) (config : Config) (now now_utc : ℕ) where
  -- What the effects do to the lifecycle: the router applies a final before its call returns.
  abbrev pub apply_effects : List Effect → SubtitleLifecycleCore → SubtitleLifecycleCore
  apply_effects [] core = core
  apply_effects (routed event ∷ effects) core =
      apply_effects effects (handle_transcript hash_order config now now_utc event core)
  apply_effects (broadcast_channel name event ∷ effects) core = apply_effects effects core
  apply_effects (publish_source text is_final ∷ effects) core = apply_effects effects core
  apply_effects (submit_final sequence text lang key ∷ effects) core = apply_effects effects core

  -- A final ends with one job, of the replaced text under the sequence of the event, and where
  -- translations are required, the lifecycle says that this sequence is relevant when the job is
  -- handed in: the subtitles have got the final before.
  pub handle_event-relevant :
      (replace : Text → Text) (configured : Option Text) (event : TranscriptEvent)
      (core : SubtitleLifecycleCore)
      → event.event ≡ final
      → translation_required_for_display config ≡ true
      → (handle_event replace configured event
          ≡ effects_before (apply_replacement replace event)
            ++ submit_final event.sequence
                (replace event.text)
                (event_source_lang configured event)
                (preview_lineage_key_from_segment event.segment)
              ∷ [])
        × (is_sequence_relevant_for_translation hash_order config now event.sequence
              (apply_effects (effects_before (apply_replacement replace event)) core)
            ≡ true)
  unfolding handle_event effects_before job_of apply_replacement publish_transcript
  handle_event-relevant replace configured event core e required =
      let replaced = apply_replacement replace event in
      (
        ap
              (λ k. elim k [
                | partial ↦ effects_before replaced
                | final ↦ effects_before replaced ++ job_of configured replaced ∷ []
              ])
              e
            ∙ ap (λ job. effects_before replaced ++ job ∷ [])
                (job_of-replaced replace configured event),
        (handle_transcript-relevant hash_order config now now_utc replaced core e required).1,
      )
