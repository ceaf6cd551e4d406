-- ===== src/Subtitle/Lifecycle/Tracking.antt =====
-- crates/voicesub-subtitle/src/lifecycle.rs: the sequences that the lifecycle names, and their records.
use stream_sub_translator.Common.{
  ℕ, ◌≡◌, refl, ◌⊎◌, inl, inr, true, Option, none, some, List, Text, Option-cases, if_both, arith,
}
use stream_sub_translator.Events.{SubtitlePayloadEvent}
use stream_sub_translator.Subtitle.Settings.{Config}
use stream_sub_translator.Subtitle.Lifecycle.{
  SubtitleLifecycleCore, record_of, is_there, promotion_payload,
}
use stream_sub_translator.Subtitle.Lifecycle.Promotion.{
  schedule_at, schedule_next_expiry_check, schedule_expiry_internal, promote, promote_or_defer,
  not_sequence, promoted, must_wait,
}

-- What a change of the schedule leaves alone.
abbrev pub IsFramed : SubtitleLifecycleCore → SubtitleLifecycleCore → Type 0
IsFramed c d =
    (d.records ≡ c.records)
    × (d.completed_sequence ≡ c.completed_sequence)
    × (d.pending_final_sequence ≡ c.pending_final_sequence)
    × (d.latest_final_sequence ≡ c.latest_final_sequence)

schedule_at-IsFramed :
    (now now_utc : ℕ) (l n : Option ℕ) (c : SubtitleLifecycleCore)
    → IsFramed c (schedule_at now now_utc l n c)
unfolding schedule_at
schedule_at-IsFramed now now_utc none n c = (refl, refl, refl, refl)
schedule_at-IsFramed now now_utc (some l) n c = (refl, refl, refl, refl)

pub schedule_next-IsFramed :
    (now now_utc : ℕ) (c : SubtitleLifecycleCore)
    → IsFramed c (schedule_next_expiry_check now now_utc c)
unfolding schedule_next_expiry_check
schedule_next-IsFramed now now_utc c = schedule_at-IsFramed now now_utc _ _ c

schedule_expiry-IsFramed :
    (hash_order : List Text → List Text) (config : Config) (now now_utc : ℕ)
    (payload : SubtitlePayloadEvent) (c : SubtitleLifecycleCore)
    → IsFramed c (schedule_expiry_internal hash_order config now now_utc payload c)
unfolding schedule_expiry_internal
schedule_expiry-IsFramed hash_order config now now_utc payload c =
    ground (arith, schedule_next-IsFramed now now_utc _)

-- Where a sequence stands once it was promoted, or has to wait.
abbrev pub IsSettled : ℕ → SubtitleLifecycleCore → SubtitleLifecycleCore → Type 0
IsSettled s c d =
    (d.records ≡ c.records)
    × (d.latest_final_sequence ≡ c.latest_final_sequence)
    × (((d.completed_sequence ≡ some s)
          × (d.pending_final_sequence ≡ not_sequence s c.pending_final_sequence)
          × (is_there (record_of s c) ≡ true))
        ⊎ ((d.completed_sequence ≡ c.completed_sequence) × (d.pending_final_sequence ≡ some s)))

module _ (hash_order : List Text → List Text) (config : Config) (now now_utc : ℕ) where
  promotion_payload-there :
      (s : ℕ) (c : SubtitleLifecycleCore) (payload : SubtitlePayloadEvent)
      → promotion_payload hash_order config now s c ≡ some payload
      → is_there (record_of s c) ≡ true
  unfolding promotion_payload
  promotion_payload-there s c payload h = ground arith

  promote-IsSettled :
      (s : ℕ) (c : SubtitleLifecycleCore) (payload : SubtitlePayloadEvent)
      → is_there (record_of s c) ≡ true
      → IsSettled s c (promote hash_order config now now_utc s payload c)
  unfolding promote
  promote-IsSettled s c payload there =
      let f = schedule_expiry-IsFramed hash_order config now now_utc payload (promoted s c) in
      (f.0, f.3, inl (f.1, f.2, there))

  pub promote_or_defer-IsSettled :
      (s : ℕ) (c : SubtitleLifecycleCore)
      → IsSettled s c (promote_or_defer hash_order config now now_utc s c)
  unfolding promote_or_defer
  promote_or_defer-IsSettled s c =
      elim (Option-cases (promotion_payload hash_order config now s c)) [
        | inl e ↦ rw (promote_or_defer, e) (refl, refl, inr (refl, refl))
        | inr (payload, e) ↦
            rw (promote_or_defer, e)
              (if_both (IsSettled s c) (must_wait hash_order config now now_utc s c) _ _
                (refl, refl, inr (refl, refl))
                (promote-IsSettled s c payload (promotion_payload-there s c payload e)))
      ]
