-- ===== src/Subtitle/Lifecycle.antt =====
-- crates/voicesub-subtitle/src/lifecycle.rs: the state of the subtitle lifecycle and what it answers. The
-- clock counts milliseconds and is read once for a call: `now`. Where the source subtracts a
-- millisecond to mark what has expired, zero stays zero, which has expired as well.
pub mod Promotion
pub mod Handlers
pub mod Tracking
pub mod Invariant
pub mod Bounds
pub mod Relevance
pub mod Steps
pub mod Sessions
use stream_sub_translator.Common.{
  ℕ, zero, suc, ◌+◌, ◌<◌, ltb, leb, ◌==◌, keep, all, any, max, Bool, true, false, not, ◌&&◌, ◌||◌,
  if◌then◌else◌, Option, none, some, List, [], ◌∷◌, map, Text, ℕ_discrete, is_empty, lookup, keys,
}
use stream_sub_translator.Events.{SubtitleLineItem, SubtitlePayloadEvent}
use stream_sub_translator.Subtitle.Settings.{
  Config, LifecycleConfig, lifecycle_config, or_default, translation_slot_map,
  translation_required_for_display,
}
use stream_sub_translator.Subtitle.Presentation.{
  SubtitleRecord, build_payload, is_source, is_translation, is_shown, first_line, other_lines, has,
}

pub record ActivePartial : Type 0 where
  pub sequence : ℕ
  pub text : Text
  pub source_lang : Text
  pub provider : Option Text

-- `scheduled` holds the calls of `schedule_expiry`, a sequence and a delay, the last one first.
-- `expiry_task` is always `None` in the source and is left out.
pub record SubtitleLifecycleCore : Type 0 where
  pub records : List (ℕ × SubtitleRecord)
  pub active_partial : Option ActivePartial
  pub completed_sequence : Option ℕ
  pub latest_final_sequence : Option ℕ
  pub pending_final_sequence : Option ℕ
  pub completed_expires_at_utc : Option ℕ
  pub completed_expires_at_monotonic : Option ℕ
  pub completed_source_expires_at_monotonic : Option ℕ
  pub completed_translation_expires_at_monotonic : Option ℕ
  pub scheduled : List (ℕ × ℕ)

-- `self.records.get`.
unfoldable pub record_of : ℕ → SubtitleLifecycleCore → Option SubtitleRecord
record_of sequence core = lookup ℕ_discrete sequence core.records

-- `== Some(sequence)`.
abbrev pub is_sequence : ℕ → Option ℕ → Bool
is_sequence sequence none = false
is_sequence sequence (some s) = s == sequence

abbrev pub is_there {ℓ} : {A : Type ℓ} → Option A → Bool
is_there none = false
is_there (some a) = true

-- The items of a payload with other visibilities, and the payload with them.
unfoldable pub remap_item : (SubtitleLineItem → Bool) → SubtitleLineItem → SubtitleLineItem
remap_item should_show item = record item {
  visible = should_show item;
  style_slot = if should_show item then item.style_slot else none;
}

unfoldable pub remap : (SubtitleLineItem → Bool) → SubtitlePayloadEvent → SubtitlePayloadEvent
unfolding remap_item is_shown first_line other_lines
remap should_show payload =
    let items' = map (remap_item should_show) payload.items in
    let visible = keep is_shown items' in
    record payload {
      items = items';
      visible_items = visible;
      line1 = first_line visible;
      line2 = other_lines visible;
    }

-- `None` where nothing is visible.
unfoldable pub if_visible : SubtitlePayloadEvent → Option SubtitlePayloadEvent
if_visible payload = elim payload.visible_items [ [] ↦ none | _ ↦ some payload ]

-- Whether `at + ttl` has come; never for a record that no final made.
unfoldable pub has_expired : ℕ → ℕ → Option SubtitleRecord → Bool
has_expired now ttl none = false
has_expired now ttl (some record') = elim record'.finalized_at_monotonic [
  | none ↦ false
  | some at ↦ leb (at + ttl) now
]

abbrev pub before : ℕ → Option ℕ → Bool
before now none = false
before now (some at) = ltb now at

is_unreceived : Option SubtitleRecord → Bool
is_unreceived none = false
is_unreceived (some record') = not record'.translation_received

-- `sequence_has_incomplete_translations`, for a record whose translation has not been received.
some_missing : List Text → List Text → Bool
unfolding has
some_missing required [] = false
some_missing [] (r ∷ received) = true
some_missing (s ∷ required) (r ∷ received) =
    not (all (λ slot. has slot (r ∷ received)) (s ∷ required))

keys_of : Option SubtitleRecord → List Text
keys_of none = []
keys_of (some record') = keys record'.translations

-- The expiry of the source: that of the translation too, where they go together and both show.
unfoldable pub source_ttl_ms : LifecycleConfig → Bool → ℕ
source_ttl_ms c has_visible_translation =
    if c.sync_source_and_translation_expiry && has_visible_translation
    then max c.completed_source_ttl_ms c.completed_translation_ttl_ms
    else c.completed_source_ttl_ms

module _ (hash_order : List Text → List Text) (config : Config) (now : ℕ) where
  source_ttl_expired : ℕ → SubtitleLifecycleCore → Bool
  unfolding has_expired record_of lifecycle_config
  source_ttl_expired sequence core =
      has_expired now (lifecycle_config config).completed_source_ttl_ms (record_of sequence core)

  unfoldable pub translation_ttl_expired : ℕ → SubtitleLifecycleCore → Bool
  unfolding has_expired record_of lifecycle_config
  translation_ttl_expired sequence core =
      has_expired now (lifecycle_config config).completed_translation_ttl_ms
        (record_of sequence core)

  unfoldable pub sequence_awaits_translation : ℕ → SubtitleLifecycleCore → Bool
  unfolding source_ttl_expired translation_required_for_display is_unreceived record_of
  sequence_awaits_translation sequence core =
      translation_required_for_display config
      && (is_unreceived (record_of sequence core) && not (source_ttl_expired sequence core))

  unfoldable pub sequence_can_accept_late_translation : ℕ → SubtitleLifecycleCore → Bool
  unfolding translation_ttl_expired translation_required_for_display is_unreceived record_of
  sequence_can_accept_late_translation sequence core =
      translation_required_for_display config
      && (is_unreceived (record_of sequence core) && not (translation_ttl_expired sequence core))

  unfoldable pub sequence_has_incomplete_translations : ℕ → SubtitleLifecycleCore → Bool
  unfolding sequence_can_accept_late_translation some_missing keys_of record_of translation_slot_map
  sequence_has_incomplete_translations sequence core =
      sequence_can_accept_late_translation sequence core
      && some_missing (keys (translation_slot_map config.translation))
          (keys_of (record_of sequence core))

  -- `completed_visibility`, of the source and of the translations: the times that were scheduled, if there are any.
  visibility_of : SubtitleRecord → ℕ → SubtitleLifecycleCore → Bool × Bool
  unfolding source_ttl_ms lifecycle_config build_payload is_shown
  visibility_of record' sequence core = elim record'.finalized_at_monotonic [
    | none ↦ (true, true)
    | some at ↦
        let c = lifecycle_config config in
        let payload = build_payload hash_order config sequence record' in
        let translated = any (λ item. is_translation item && is_shown item) payload.visible_items in
        if is_there core.completed_source_expires_at_monotonic
          || is_there core.completed_translation_expires_at_monotonic
        then (
          before now core.completed_source_expires_at_monotonic,
          before now core.completed_translation_expires_at_monotonic,
        )
        else (
          ltb now (at + source_ttl_ms c translated),
          ltb now (at + c.completed_translation_ttl_ms),
        )
  ]

  unfoldable pub completed_visibility : SubtitleLifecycleCore → Bool × Bool
  unfolding visibility_of record_of
  completed_visibility core = elim core.completed_sequence [
    | none ↦ (false, false)
    | some sequence ↦ elim (record_of sequence core) [
      | none ↦ (false, false)
      | some record' ↦ visibility_of record' sequence core
    ]
  ]

  abbrev pub shows : Bool → Bool × Bool → SubtitleLineItem → Bool
  shows hide_source (source_visible, translation_visible) item =
      item.visible
      && (not (is_empty item.text)
          && (if is_source item then source_visible && not hide_source else translation_visible))

  unfoldable pub current_completed_payload :
      Bool → SubtitleLifecycleCore → Option SubtitlePayloadEvent
  unfolding completed_visibility build_payload remap if_visible record_of
  current_completed_payload hide_source core = elim core.completed_sequence [
    | none ↦ none
    | some sequence ↦ elim (record_of sequence core) [
      | none ↦ none
      | some record' ↦ if_visible (
          remap (shows hide_source (completed_visibility core))
            (build_payload hash_order config sequence record'))
    ]
  ]

  abbrev without_source : SubtitleLineItem → Bool
  without_source item = item.visible && (not (is_empty item.text) && not (is_source item))

  unfoldable pub promotion_payload : ℕ → SubtitleLifecycleCore → Option SubtitlePayloadEvent
  unfolding build_payload remap if_visible source_ttl_expired record_of
  promotion_payload sequence core = elim (record_of sequence core) [
    | none ↦ none
    | some record' ↦
        let payload = build_payload hash_order config sequence record' in
        if_visible
          (if source_ttl_expired sequence core then remap without_source payload else payload)
  ]

  -- `payload.visible_items` is not empty in any payload that `promotion_payload` gives.
  unfoldable pub is_sequence_relevant_for_presentation : ℕ → SubtitleLifecycleCore → Bool
  unfolding current_completed_payload sequence_can_accept_late_translation promotion_payload
      record_of
  is_sequence_relevant_for_presentation sequence core =
      let completed = is_there (current_completed_payload false core) in
      let late = sequence_can_accept_late_translation sequence core in
      let promotable = is_there (promotion_payload sequence core) in
      is_there (record_of sequence core)
      && (if is_sequence sequence core.pending_final_sequence
          then true
          else if is_sequence sequence core.completed_sequence
          then completed || late
          else not (is_there core.completed_sequence)
            && (not (is_there core.pending_final_sequence)
                && (is_sequence sequence core.latest_final_sequence && promotable)))

  unfoldable pub is_sequence_relevant_for_translation : ℕ → SubtitleLifecycleCore → Bool
  unfolding is_sequence_relevant_for_presentation sequence_awaits_translation
      sequence_can_accept_late_translation record_of
  is_sequence_relevant_for_translation sequence core =
      is_there (record_of sequence core)
      && (is_sequence_relevant_for_presentation sequence core
          || (is_sequence sequence core.pending_final_sequence
              || (is_sequence sequence core.completed_sequence
                    && sequence_awaits_translation sequence core
                  || is_sequence sequence core.latest_final_sequence
                    && sequence_can_accept_late_translation sequence core)))
