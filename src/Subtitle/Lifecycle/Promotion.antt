-- ===== src/Subtitle/Lifecycle/Promotion.antt =====
-- crates/voicesub-subtitle/src/lifecycle.rs: pruning, the schedule of the expiry, and the promotion of a
-- sequence to the completed block.
use stream_sub_translator.Common.{
  ℕ, ◌+◌, ◌-◌, ◌/◌, ltb, leb, ◌==◌, length, keep, any, min, max, Bool, false, not, ◌&&◌, ◌||◌,
  if◌then◌else◌, Option, none, some, List, [], ◌∷◌, Text, ℕ_discrete, remove, keys,
}
use stream_sub_translator.Events.{SubtitlePayloadEvent}
use stream_sub_translator.Subtitle.Settings.{Config, lifecycle_config, or_default}
use stream_sub_translator.Subtitle.Presentation.{
  SubtitleRecord, is_source, is_translation, is_shown,
}
use stream_sub_translator.Subtitle.Lifecycle.{
  ActivePartial, SubtitleLifecycleCore, is_sequence, source_ttl_ms, sequence_awaits_translation,
  promotion_payload,
}

abbrev pub records_max : ℕ
records_max = 512

-- The state that `new` makes.
abbrev pub initial_core : SubtitleLifecycleCore
initial_core = record {
  records = [];
  active_partial = none;
  completed_sequence = none;
  latest_final_sequence = none;
  pending_final_sequence = none;
  completed_expires_at_utc = none;
  completed_expires_at_monotonic = none;
  completed_source_expires_at_monotonic = none;
  completed_translation_expires_at_monotonic = none;
  scheduled = [];
}

-- The timers that were started go on.
abbrev pub reset : SubtitleLifecycleCore → SubtitleLifecycleCore
reset core = record initial_core { scheduled = core.scheduled }

unfoldable pub clear_active_partial : SubtitleLifecycleCore → SubtitleLifecycleCore
clear_active_partial core = record core { active_partial = none }

abbrev pub partial_sequence : Option ActivePartial → Option ℕ
partial_sequence none = none
partial_sequence (some p) = some p.sequence

-- `protected.contains`.
unfoldable pub is_protected : SubtitleLifecycleCore → ℕ → Bool
is_protected core s =
    is_sequence s core.completed_sequence
    || (is_sequence s core.pending_final_sequence
        || (is_sequence s core.latest_final_sequence
            || is_sequence s (partial_sequence core.active_partial)))

-- `sort_unstable`.
unfoldable pub sorted_insert : ℕ → List ℕ → List ℕ
sorted_insert n [] = n ∷ []
sorted_insert n (m ∷ ms) = if leb n m then n ∷ m ∷ ms else m ∷ sorted_insert n ms

unfoldable pub sort : List ℕ → List ℕ
unfolding sorted_insert
sort [] = []
sort (n ∷ ns) = sorted_insert n (sort ns)

unfoldable pub prune_loop : List ℕ → List (ℕ × SubtitleRecord) → List (ℕ × SubtitleRecord)
prune_loop [] records = records
prune_loop (s ∷ removable) records =
    let rest = prune_loop removable (remove ℕ_discrete s records) in
    if ltb records_max (length records) then rest else records

unfoldable pub prune_old_records : SubtitleLifecycleCore → SubtitleLifecycleCore
unfolding prune_loop sort is_protected
prune_old_records core = record core {
  records =
      if leb (length core.records) records_max
      then core.records
      else prune_loop (sort (keep (λ s. not (is_protected core s)) (keys core.records)))
          core.records;
}

-- The latest and the earliest of the two expiry times that are still to come.
to_come : ℕ → Option ℕ → Option ℕ
to_come now none = none
to_come now (some at) = if ltb now at then some at else none

latest : Option ℕ → Option ℕ → Option ℕ
latest none b = b
latest (some a) none = some a
latest (some a) (some b) = some (max a b)

earliest : Option ℕ → Option ℕ → Option ℕ
earliest none b = b
earliest (some a) none = some a
earliest (some a) (some b) = some (min a b)

abbrev pub clear_expiry : SubtitleLifecycleCore → SubtitleLifecycleCore
clear_expiry core = record core {
  completed_expires_at_utc = none;
  completed_expires_at_monotonic = none;
  completed_source_expires_at_monotonic = none;
  completed_translation_expires_at_monotonic = none;
}

module _ (now : ℕ) (now_utc : ℕ) where
  -- `now_utc` is in seconds, as `format_expires_utc` writes it.
  unfoldable pub schedule_at : Option ℕ → Option ℕ → SubtitleLifecycleCore → SubtitleLifecycleCore
  schedule_at none next core = record core {
    completed_expires_at_utc = none;
    completed_expires_at_monotonic = none;
  }
  schedule_at (some last) next core = record core {
    completed_expires_at_monotonic = some last;
    completed_expires_at_utc = some (now_utc + (last - now) / 1000);
    scheduled = (or_default 0 core.completed_sequence, or_default last next - now) ∷ core.scheduled;
  }

  unfoldable pub schedule_next_expiry_check : SubtitleLifecycleCore → SubtitleLifecycleCore
  unfolding schedule_at to_come latest earliest
  schedule_next_expiry_check core =
      let source_at = to_come now core.completed_source_expires_at_monotonic in
      let translation_at = to_come now core.completed_translation_expires_at_monotonic in
      schedule_at (latest source_at translation_at) (earliest source_at translation_at) core

abbrev pub not_sequence : ℕ → Option ℕ → Option ℕ
not_sequence sequence none = none
not_sequence sequence (some s) = if s == sequence then none else some s

abbrev not_partial : ℕ → Option ActivePartial → Option ActivePartial
not_partial sequence none = none
not_partial sequence (some p) = if p.sequence == sequence then none else some p

-- The promotion itself, without the schedule.
abbrev pub promoted : ℕ → SubtitleLifecycleCore → SubtitleLifecycleCore
promoted sequence core = record core {
  completed_sequence = some sequence;
  pending_final_sequence = not_sequence sequence core.pending_final_sequence;
  active_partial = not_partial sequence core.active_partial;
}

module _ (hash_order : List Text → List Text) (config : Config) (now now_utc : ℕ) where
  unfoldable pub schedule_expiry_internal :
      SubtitlePayloadEvent → SubtitleLifecycleCore → SubtitleLifecycleCore
  unfolding schedule_next_expiry_check source_ttl_ms lifecycle_config is_shown
  schedule_expiry_internal payload core = elim core.completed_sequence [
    | none ↦ clear_expiry core
    | some completed ↦
        let c = lifecycle_config config in
        let has_source = any (λ item. is_source item && is_shown item) payload.visible_items in
        let has_translation =
          any (λ item. is_translation item && is_shown item) payload.visible_items in
        schedule_next_expiry_check now now_utc (record core {
          completed_source_expires_at_monotonic =
              some (if has_source then now + source_ttl_ms c has_translation else now - 1);
          completed_translation_expires_at_monotonic =
              some (if has_translation then now + c.completed_translation_ttl_ms else now - 1);
        })
  ]

  abbrev defer : ℕ → SubtitleLifecycleCore → SubtitleLifecycleCore
  defer sequence core = record core { pending_final_sequence = some sequence }

  -- Whether the completed block must stay for now.
  unfoldable pub must_wait : ℕ → SubtitleLifecycleCore → Bool
  unfolding sequence_awaits_translation lifecycle_config
  must_wait sequence core = elim core.completed_sequence [
    | none ↦ false
    | some completed ↦
        not (completed == sequence)
        && (sequence_awaits_translation hash_order config now completed core
            || not (lifecycle_config config).allow_early_replace_on_next_final)
  ]

  unfoldable pub promote : ℕ → SubtitlePayloadEvent → SubtitleLifecycleCore → SubtitleLifecycleCore
  unfolding schedule_expiry_internal
  promote sequence payload core = schedule_expiry_internal payload (promoted sequence core)

  unfoldable pub promote_or_defer : ℕ → SubtitleLifecycleCore → SubtitleLifecycleCore
  unfolding promote must_wait promotion_payload
  promote_or_defer sequence core = elim (promotion_payload hash_order config now sequence core) [
    | none ↦ defer sequence core
    | some payload ↦
        if must_wait sequence core then defer sequence core else promote sequence payload core
  ]

  -- Whether the completed block keeps the pending sequence waiting.
  unfoldable pub is_blocked : ℕ → SubtitleLifecycleCore → Bool
  unfolding sequence_awaits_translation
  is_blocked pending core = elim core.completed_sequence [
    | none ↦ false
    | some completed ↦
        (completed == pending) || sequence_awaits_translation hash_order config now completed core
  ]

  unfoldable pub maybe_flush_pending_when_unblocked : SubtitleLifecycleCore → SubtitleLifecycleCore
  unfolding promote_or_defer is_blocked
  maybe_flush_pending_when_unblocked core = elim core.pending_final_sequence [
    | none ↦ core
    | some pending ↦ if is_blocked pending core then core else promote_or_defer pending core
  ]
