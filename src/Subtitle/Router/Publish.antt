-- ===== src/Subtitle/Router/Publish.antt =====
-- crates/voicesub-subtitle/src/router_actor.rs: what is published, and when.
use stream_sub_translator.Common.{
  ℕ, suc, ◌≡◌, refl, sym, ap, ◌∙◌, ◌⊎◌, inl, inr, false, List, [], ◌∷◌, Text, if_both, arith,
}
use stream_sub_translator.Events.{SubtitlePayloadEvent}
use stream_sub_translator.Subtitle.Settings.{Config}
use stream_sub_translator.Subtitle.Current.{build_presentation_payload}
use stream_sub_translator.Subtitle.Router.{
  RouterInner, SourceCommand, transcript, expiry_tick, clear_partial, reset_all, republish,
  flush_publish, ingest_browser_text, query_translation_relevance, query_presentation_relevance,
  query_record, TranslationCommand, translation, publish_current, publish_loop,
  schedule_overlay_publish, flush_overlay_publish, apply_transcript, apply_translation, ingest,
  process_translation_command, drain_translation_queue, process_source,
}

-- No publish is pending, and none is on its way.
abbrev pub IsQuiet : RouterInner → Type 0
IsQuiet inner = (inner.overlay_publish_pending ≡ false) × (inner.overlay_publish_in_flight ≡ false)

module _ (hash_order : List Text → List Text) (config : Config) (now now_utc : ℕ) where
  -- The last thing published is the payload of the state.
  abbrev IsShown : RouterInner → Type 0
  IsShown inner =
      (older : List SubtitlePayloadEvent) × (inner.published
        ≡ (build_presentation_payload hash_order config now inner.lifecycle).payload ∷ older)

  -- Two passes of the loop are enough, and more do nothing else.
  loop_fuel :
      (n : ℕ) (inner : RouterInner)
      → publish_loop hash_order config now now_utc (suc (suc n)) inner
        ≡ publish_loop hash_order config now now_utc 2 inner
  unfolding publish_loop publish_current
  loop_fuel n inner = ground arith

  pub schedule-IsQuiet :
      (inner : RouterInner)
      → IsQuiet inner
      → IsQuiet (schedule_overlay_publish hash_order config now now_utc inner)
  unfolding schedule_overlay_publish publish_loop publish_current
  schedule-IsQuiet inner (p, f) = ground (arith, p, f)

  schedule-published :
      (inner : RouterInner)
      → IsQuiet inner
      → (schedule_overlay_publish hash_order config now now_utc inner).published
        ≡ (build_presentation_payload hash_order config now inner.lifecycle).payload
          ∷ inner.published
  unfolding schedule_overlay_publish publish_loop publish_current
  schedule-published inner (p, f) = rw (schedule_overlay_publish, f) refl

  pub schedule-lifecycle :
      (inner : RouterInner)
      → (schedule_overlay_publish hash_order config now now_utc inner).lifecycle ≡ inner.lifecycle
  unfolding schedule_overlay_publish publish_loop publish_current
  schedule-lifecycle inner =
      if_both (λ (r : RouterInner). r.lifecycle ≡ inner.lifecycle) inner.overlay_publish_in_flight _
        _ refl refl

  schedule-next_sequence :
      (inner : RouterInner)
      → (schedule_overlay_publish hash_order config now now_utc inner).next_sequence
        ≡ inner.next_sequence
  unfolding schedule_overlay_publish publish_loop publish_current
  schedule-next_sequence inner =
      if_both (λ (r : RouterInner). r.next_sequence ≡ inner.next_sequence)
        inner.overlay_publish_in_flight _ _ refl refl

  schedule-IsShown :
      (inner : RouterInner)
      → IsQuiet inner
      → IsShown (schedule_overlay_publish hash_order config now now_utc inner)
  schedule-IsShown inner q = (
    inner.published,
    schedule-published inner q
        ∙ ap
            (λ core.
              (build_presentation_payload hash_order config now core).payload ∷ inner.published)
            (sym (schedule-lifecycle inner)),
  )

  -- Quiet before and after, and what the state became is what was published last.
  abbrev pub IsPublished : RouterInner → RouterInner → Type 0
  IsPublished before after =
      IsQuiet after
      × (((after.lifecycle ≡ before.lifecycle) × (after.published ≡ before.published))
          ⊎ IsShown after)

  schedule-IsPublished :
      (before inner : RouterInner)
      → IsQuiet inner
      → IsPublished before (schedule_overlay_publish hash_order config now now_utc inner)
  schedule-IsPublished before inner q = (schedule-IsQuiet inner q, inr (schedule-IsShown inner q))

  flush-IsPublished :
      (before inner : RouterInner)
      → IsQuiet inner
      → IsPublished before (flush_overlay_publish hash_order config now now_utc inner)
  unfolding flush_overlay_publish
  flush-IsPublished before inner (p, f) =
      schedule-IsPublished before (record inner { overlay_publish_pending = false }) (refl, f)

  IsShown-same :
      (a b : RouterInner)
      → b.lifecycle ≡ a.lifecycle
      → b.published ≡ a.published
      → IsShown a
      → IsShown b
  IsShown-same a b l p (older, s) = (
    older,
    p
        ∙ s
        ∙ ap (λ core. (build_presentation_payload hash_order config now core).payload ∷ older)
            (sym l),
  )

  pub drain-IsPublished :
      (commands : List TranslationCommand) (inner : RouterInner)
      → IsQuiet inner
      → IsPublished inner (drain_translation_queue hash_order config now now_utc commands inner).0
  unfolding drain_translation_queue process_translation_command apply_translation
  drain-IsPublished [] inner q = (q, inl (refl, refl))
  drain-IsPublished (translation event wants ∷ commands) inner q =
      let one =
        schedule_overlay_publish hash_order config now now_utc
          (apply_translation hash_order config now now_utc event inner) in
      let o =
        schedule-IsPublished inner (apply_translation hash_order config now now_utc event inner)
          q in
      let rest = drain-IsPublished commands one o.0 in
      (
        rest.0,
        elim rest.1 [
          | inl (l, p) ↦ inr (
              IsShown-same one
                (drain_translation_queue hash_order config now now_utc commands one).0 l p
                (schedule-IsShown (apply_translation hash_order config now now_utc event inner) q))
          | inr s ↦ inr s
        ],
      )

  -- The flags are down between commands, and no change of the lifecycle goes unpublished: after a
  -- command, the lifecycle and what was published are as before, or the last payload published is
  -- the one of the lifecycle as it is now.
  pub process_source-IsPublished :
      (command : SourceCommand) (waiting : List TranslationCommand) (inner : RouterInner)
      → IsQuiet inner
      → IsPublished inner (process_source hash_order config now now_utc command waiting inner).0
  unfolding process_source apply_transcript ingest
  process_source-IsPublished (transcript event wants) waiting inner q =
      schedule-IsPublished inner (apply_transcript hash_order config now now_utc event inner) q
  process_source-IsPublished (expiry_tick sequence) waiting inner q = schedule-IsPublished inner _ q
  process_source-IsPublished clear_partial waiting inner q = schedule-IsPublished inner _ q
  process_source-IsPublished reset_all waiting inner q =
      flush-IsPublished inner _ (schedule-IsQuiet _ q)
  process_source-IsPublished republish waiting inner q = schedule-IsPublished inner inner q
  process_source-IsPublished flush_publish waiting inner q =
      let drained = drain_translation_queue hash_order config now now_utc waiting inner in
      let d = drain-IsPublished waiting inner q in
      if_both (IsPublished inner) _
        (schedule_overlay_publish hash_order config now now_utc drained.0) drained.0
        (schedule-IsPublished inner drained.0 d.0) d
  process_source-IsPublished (ingest_browser_text text is_final lang provider) waiting inner q =
      flush-IsPublished inner _ (schedule-IsQuiet _ q)
  process_source-IsPublished (query_translation_relevance sequence) waiting inner q =
      (q, inl (refl, refl))
  process_source-IsPublished (query_presentation_relevance sequence) waiting inner q =
      (q, inl (refl, refl))
  process_source-IsPublished (query_record sequence) waiting inner q = (q, inl (refl, refl))
