-- ===== src/Subtitle/Lifecycle/Relevance.antt =====
-- crates/voicesub-subtitle/src/lifecycle.rs: what the dispatcher is told about a sequence that has just become final.
use stream_sub_translator.Common.{
  ℕ, ◌+◌, ◌<◌, leb, ◌≡◌, refl, ap, ◌∙◌, ◌⊎◌, inl, inr, Bool, true, false, not, ◌&&◌, ◌||◌, Option,
  some, List, Text, ℕ_discrete, lookup, lookup-insert_self, Bool-cases, arith,
}
use stream_sub_translator.Events.{TranscriptEvent, final}
use stream_sub_translator.Subtitle.Settings.{
  Config, lifecycle_config, translation_required_for_display,
}
use stream_sub_translator.Subtitle.Lifecycle.{
  SubtitleLifecycleCore, record_of, is_sequence, is_there, has_expired, translation_ttl_expired,
  sequence_can_accept_late_translation, is_sequence_relevant_for_presentation,
  is_sequence_relevant_for_translation, current_completed_payload,
}
use stream_sub_translator.Subtitle.Lifecycle.Promotion.{is_protected, prune_old_records}
use stream_sub_translator.Subtitle.Lifecycle.Handlers.{final_record, note_final, handle_transcript}
use stream_sub_translator.Subtitle.Lifecycle.Tracking.{promote_or_defer-IsSettled}
use stream_sub_translator.Subtitle.Lifecycle.Invariant.{lookup-prune_old_records}
use stream_sub_translator.Subtitle.Lifecycle.Steps.{handle_transcript-final}

leb-before : (n m : ℕ) → m < n → leb n m ≡ false
leb-before n m h = ground arith

is_sequence_self : (s : ℕ) (o : Option ℕ) → o ≡ some s → is_sequence s o ≡ true
is_sequence_self s o e = ground arith

both_true : (a b r : Bool) → a ≡ true → b ≡ true → (a && (b || r)) ≡ true
both_true a b r ha hb = ground arith

or_true : (b : Bool) → (b || true) ≡ true
or_true true = refl
or_true false = refl

module _ (hash_order : List Text → List Text) (config : Config) (now now_utc : ℕ) where
  noted-protected :
      (event : TranscriptEvent) (c : SubtitleLifecycleCore)
      → is_protected (note_final config now now_utc event c) event.sequence ≡ true
  unfolding is_protected note_final
  noted-protected event c = ground arith

  handle_transcript-record :
      (event : TranscriptEvent) (c : SubtitleLifecycleCore)
      → event.event ≡ final
      → record_of event.sequence (handle_transcript hash_order config now now_utc event c)
        ≡ some (final_record config now now_utc event)
  unfolding handle_transcript record_of note_final
  handle_transcript-record event c e =
      let noted = note_final config now now_utc event c in
      let settled =
        promote_or_defer-IsSettled hash_order config now now_utc event.sequence
          (prune_old_records noted) in
      rw (handle_transcript, e)
        (ap (lookup ℕ_discrete event.sequence) settled.0
          ∙ lookup-prune_old_records event.sequence noted (noted-protected event c)
          ∙ lookup-insert_self ℕ_discrete event.sequence (final_record config now now_utc event)
              c.records)

  settled-relevant :
      (s : ℕ) (d : SubtitleLifecycleCore)
      → (d.completed_sequence ≡ some s) ⊎ (d.pending_final_sequence ≡ some s)
      → is_there (record_of s d) ≡ true
      → sequence_can_accept_late_translation hash_order config now s d ≡ true
      → is_sequence_relevant_for_presentation hash_order config now s d ≡ true
  unfolding is_sequence_relevant_for_presentation
  settled-relevant s d (inl e) there late =
      elim (Bool-cases (is_sequence s d.pending_final_sequence)) [
        | inl p ↦ rw (is_sequence_relevant_for_presentation, there, p) refl
        | inr p ↦
            rw
              (
                is_sequence_relevant_for_presentation,
                there,
                p,
                is_sequence_self s d.completed_sequence e,
                late,
              )
              (or_true (is_there (current_completed_payload hash_order config now false d)))
      ]
  settled-relevant s d (inr e) there late =
      rw
        (
          is_sequence_relevant_for_presentation,
          there,
          is_sequence_self s d.pending_final_sequence e,
        )
        refl

module _ (hash_order : List Text → List Text) where
  late-accepted_until :
      (config config' : Config) (now now_utc now' : ℕ) (event : TranscriptEvent)
      (d : SubtitleLifecycleCore)
      → translation_required_for_display config ≡ true
      → translation_required_for_display config' ≡ true
      → now' < now + (lifecycle_config config').completed_translation_ttl_ms
      → record_of event.sequence d ≡ some (final_record config now now_utc event)
      → sequence_can_accept_late_translation hash_order config' now' event.sequence d ≡ true
  unfolding sequence_can_accept_late_translation translation_ttl_expired has_expired final_record
  late-accepted_until config config' now now_utc now' event d required required' soon there =
      rw (sequence_can_accept_late_translation, there, required, required')
        (ap not (leb-before _ now' soon))

  pub relevant_until_ttl :
      (config config' : Config) (now now_utc now' : ℕ) (event : TranscriptEvent)
      (c : SubtitleLifecycleCore)
      → event.event ≡ final
      → translation_required_for_display config ≡ true
      → translation_required_for_display config' ≡ true
      → now' < now + (lifecycle_config config').completed_translation_ttl_ms
      → (is_sequence_relevant_for_presentation hash_order config' now' event.sequence
            (handle_transcript hash_order config now now_utc event c)
          ≡ true)
        × (is_sequence_relevant_for_translation hash_order config' now' event.sequence
              (handle_transcript hash_order config now now_utc event c)
            ≡ true)
  unfolding is_sequence_relevant_for_translation
  relevant_until_ttl config config' now now_utc now' event c e required required' soon =
      let d = handle_transcript hash_order config now now_utc event c in
      let f = handle_transcript-final hash_order config now now_utc event c e in
      let late =
        late-accepted_until config config' now now_utc now' event d required required' soon
          (handle_transcript-record hash_order config now now_utc event c e) in
      let shown = settled-relevant hash_order config' now' 0 event.sequence d f.0 f.1 late in
      (shown, both_true _ _ _ f.1 shown)

module _ (hash_order : List Text → List Text) (config : Config) (now now_utc : ℕ) where
  ttl-pos : 0 < (lifecycle_config config).completed_translation_ttl_ms
  unfolding lifecycle_config
  ttl-pos = omega arith

  -- Where translations are required, the sequence of a final is relevant to the dispatcher and to
  -- the presentation as soon as the final has been handled, whether it was promoted or has to wait:
  -- its job is not dropped as stale at once.
  pub handle_transcript-relevant :
      (event : TranscriptEvent) (c : SubtitleLifecycleCore)
      → event.event ≡ final
      → translation_required_for_display config ≡ true
      → (is_sequence_relevant_for_presentation hash_order config now event.sequence
            (handle_transcript hash_order config now now_utc event c)
          ≡ true)
        × (is_sequence_relevant_for_translation hash_order config now event.sequence
              (handle_transcript hash_order config now now_utc event c)
            ≡ true)
  handle_transcript-relevant event c e required =
      relevant_until_ttl hash_order config config now now_utc now event c e required required
        (omega (arith, ttl-pos))
