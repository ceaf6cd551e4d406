-- ===== src/Subtitle/Lifecycle/Steps.antt =====
-- crates/voicesub-subtitle/src/lifecycle.rs: each handler keeps the records of the sequences that are named.
use stream_sub_translator.Common.{
  ℕ, ◌≡◌, refl, sym, ap, ◌∙◌, ◌⊎◌, inl, inr, true, not, if◌then◌else◌, Option, none, some, List,
  Text, Option-cases, Bool-cases, if_both, arith,
}
use stream_sub_translator.Events.{TranscriptKind, TranscriptEvent, TranslationEvent, partial, final}
use stream_sub_translator.Subtitle.Settings.{Config}
use stream_sub_translator.Subtitle.Lifecycle.{
  SubtitleLifecycleCore, record_of, is_sequence, is_there,
}
use stream_sub_translator.Subtitle.Lifecycle.Promotion.{
  is_protected, prune_old_records, schedule_next_expiry_check, promote_or_defer,
  maybe_flush_pending_when_unblocked, is_blocked,
}
use stream_sub_translator.Subtitle.Lifecycle.Tracking.{
  IsSettled, promote_or_defer-IsSettled, schedule_next-IsFramed,
}
use stream_sub_translator.Subtitle.Lifecycle.Invariant.{
  Records, knows, IsTracked, settled-IsTracked, framed-IsTracked, knows-insert, knows-insert_self,
  lookup-prune_old_records,
}
use stream_sub_translator.Subtitle.Lifecycle.Handlers.{
  note_final, note_translation, handle_transcript, handle_translation, on_expiry_tick,
  clear_completed, without_completed, should_promote, must_stay, newest,
}

pub TranscriptKind-cases : (k : TranscriptKind) → (k ≡ partial) ⊎ (k ≡ final)
TranscriptKind-cases partial = inl refl
TranscriptKind-cases final = inr refl

module _ (hash_order : List Text → List Text) where
  knows-some :
      (c : SubtitleLifecycleCore) (o : Option ℕ) (s : ℕ)
      → knows c.records o ≡ true
      → o ≡ some s
      → knows c.records (some s) ≡ true
  knows-some c o s k e = ap (knows c.records) (sym e) ∙ k

  known_from_lookup :
      (c d : SubtitleLifecycleCore) (o : Option ℕ)
      → ((s : ℕ) → o ≡ some s → record_of s d ≡ record_of s c)
      → knows c.records o ≡ true
      → knows d.records o ≡ true
  unfolding record_of
  known_from_lookup c d none h k = refl
  known_from_lookup c d (some s) h k = ap is_there (h s refl) ∙ k

  protected_completed :
      (c : SubtitleLifecycleCore) (s : ℕ) → c.completed_sequence ≡ some s → is_protected c s ≡ true
  unfolding is_protected
  protected_completed c s e = ground arith

  protected_pending :
      (c : SubtitleLifecycleCore) (s : ℕ)
      → c.pending_final_sequence ≡ some s
      → is_protected c s ≡ true
  unfolding is_protected
  protected_pending c s e = ground arith

  protected_latest :
      (c : SubtitleLifecycleCore) (s : ℕ)
      → c.latest_final_sequence ≡ some s
      → is_protected c s ≡ true
  unfolding is_protected
  protected_latest c s e = ground arith

  prune-knows :
      (c : SubtitleLifecycleCore) (o : Option ℕ)
      → ((s : ℕ) → o ≡ some s → is_protected c s ≡ true)
      → knows c.records o ≡ true
      → knows (prune_old_records c).records o ≡ true
  prune-knows c o p =
      known_from_lookup c (prune_old_records c) o (λ s e. lookup-prune_old_records s c (p s e))

  prune-IsTracked : (c : SubtitleLifecycleCore) → IsTracked c → IsTracked (prune_old_records c)
  unfolding prune_old_records
  prune-IsTracked c t = (
    prune-knows c c.completed_sequence (protected_completed c) t.0,
    prune-knows c c.pending_final_sequence (protected_pending c) t.1,
    prune-knows c c.latest_final_sequence (protected_latest c) t.2,
  )

  module _ (config : Config) (now now_utc : ℕ) where
    promote_or_defer-IsTracked :
        (s : ℕ) (c : SubtitleLifecycleCore)
        → knows c.records (some s) ≡ true
        → IsTracked c
        → IsTracked (promote_or_defer hash_order config now now_utc s c)
    promote_or_defer-IsTracked s c =
        settled-IsTracked s c (promote_or_defer hash_order config now now_utc s c)
          (promote_or_defer-IsSettled hash_order config now now_utc s c)

    pub flush-cases :
        (c : SubtitleLifecycleCore)
        → (maybe_flush_pending_when_unblocked hash_order config now now_utc c ≡ c)
          ⊎ ((p : ℕ) × (c.pending_final_sequence ≡ some p)
              × (maybe_flush_pending_when_unblocked hash_order config now now_utc c
                  ≡ promote_or_defer hash_order config now now_utc p c))
    unfolding maybe_flush_pending_when_unblocked
    flush-cases c = elim (Option-cases c.pending_final_sequence) [
      | inl e ↦ inl (ground arith)
      | inr (p, e) ↦ elim (Bool-cases (is_blocked hash_order config now now_utc p c)) [
        | inl b ↦ inl (ground arith)
        | inr b ↦ inr (p, e, ground arith)
      ]
    ]

    flush-IsTracked :
        (c : SubtitleLifecycleCore)
        → IsTracked c
        → IsTracked (maybe_flush_pending_when_unblocked hash_order config now now_utc c)
    flush-IsTracked c t = elim (flush-cases c) [
      | inl e ↦ rw (e) t
      | inr (p, h, e) ↦ rw (e) (promote_or_defer-IsTracked p c (knows-some c _ p t.1 h) t)
    ]

    note_translation-IsTracked :
        (event : TranslationEvent) (c : SubtitleLifecycleCore)
        → IsTracked c
        → IsTracked (note_translation config event c)
    unfolding note_translation
    note_translation-IsTracked event c t = (
      knows-insert _ _ c.records _ t.0,
      knows-insert _ _ c.records _ t.1,
      knows-insert _ _ c.records _ t.2,
    )

    knows-newest :
        (s : ℕ) (rs : Records) (o : Option ℕ)
        → knows rs (some s) ≡ true
        → knows rs o ≡ true
        → knows rs (newest s o) ≡ true
    knows-newest s rs none k h = k
    knows-newest s rs (some n) k h = if_both (λ o. knows rs o ≡ true) _ (some s) (some n) k h

    translated-there :
        (event : TranslationEvent) (c : SubtitleLifecycleCore)
        → knows (note_translation config event c).records (some event.sequence) ≡ true
    unfolding note_translation
    translated-there event c = knows-insert_self event.sequence _ c.records

    note_final-IsTracked :
        (event : TranscriptEvent) (c : SubtitleLifecycleCore)
        → IsTracked c
        → IsTracked (note_final config now now_utc event c)
    unfolding note_final
    note_final-IsTracked event c t =
        let k = knows-insert_self event.sequence _ c.records in
        (
          knows-insert _ _ c.records _ t.0,
          k,
          knows-newest event.sequence _ _ k (knows-insert _ _ c.records _ t.2),
        )

    pub noted-there :
        (event : TranscriptEvent) (c : SubtitleLifecycleCore)
        → knows
            (prune_old_records (note_final config now now_utc event c)).records
            (some event.sequence)
          ≡ true
    unfolding note_final
    noted-there event c =
        let noted = note_final config now now_utc event c in
        prune-knows noted noted.pending_final_sequence (protected_pending noted)
          (knows-insert_self event.sequence _ c.records)

    pub handle_transcript-IsTracked :
        (event : TranscriptEvent) (c : SubtitleLifecycleCore)
        → IsTracked c
        → IsTracked (handle_transcript hash_order config now now_utc event c)
    unfolding handle_transcript
    handle_transcript-IsTracked event c t = elim (TranscriptKind-cases event.event) [
      | inl e ↦ rw (handle_transcript, e) t
      | inr e ↦
          rw (handle_transcript, e)
            (promote_or_defer-IsTracked event.sequence
              (prune_old_records (note_final config now now_utc event c)) (noted-there event c)
              (prune-IsTracked (note_final config now now_utc event c)
                (note_final-IsTracked event c t)))
    ]

    pub handle_translation-IsTracked :
        (event : TranslationEvent) (c : SubtitleLifecycleCore)
        → IsTracked c
        → IsTracked (handle_translation hash_order config now now_utc event c)
    unfolding handle_translation
    handle_translation-IsTracked event c t =
        let noted = note_translation config event c in
        let n : IsTracked noted = note_translation-IsTracked event c t in
        flush-IsTracked
          (if should_promote event.sequence noted
            then promote_or_defer hash_order config now now_utc event.sequence noted
            else noted)
          (if_both IsTracked (should_promote event.sequence noted) _ _
            (promote_or_defer-IsTracked event.sequence noted (translated-there event c) n) n)

    pub clear-cases :
        (c : SubtitleLifecycleCore)
        → (clear_completed hash_order config now now_utc c ≡ without_completed c)
          ⊎ ((p : ℕ) × (c.pending_final_sequence ≡ some p)
              × (clear_completed hash_order config now now_utc c
                  ≡ promote_or_defer hash_order config now now_utc p (without_completed c)))
    unfolding clear_completed
    clear-cases c = elim (Option-cases c.pending_final_sequence) [
      | inl e ↦ inl (ground arith)
      | inr (p, e) ↦ inr (p, e, ground arith)
    ]

    clear_completed-IsTracked :
        (c : SubtitleLifecycleCore)
        → IsTracked c
        → IsTracked (clear_completed hash_order config now now_utc c)
    clear_completed-IsTracked c t = elim (clear-cases c) [
      | inl e ↦ rw (e) (refl, t.1, t.2)
      | inr (p, h, e) ↦ rw (e) (
          promote_or_defer-IsTracked p (without_completed c) (knows-some c _ p t.1 h)
            (refl, t.1, t.2))
    ]

    pub on_expiry_tick-IsTracked :
        (s : ℕ) (c : SubtitleLifecycleCore)
        → IsTracked c
        → IsTracked (on_expiry_tick hash_order config now now_utc s c)
    unfolding on_expiry_tick
    on_expiry_tick-IsTracked s c t =
        if_both IsTracked (not (is_sequence s c.completed_sequence)) _ _ t (
          if_both IsTracked (must_stay hash_order config now now_utc s c) _ _
            (flush-IsTracked (schedule_next_expiry_check now now_utc c) (
              framed-IsTracked c (schedule_next_expiry_check now now_utc c)
                (schedule_next-IsFramed now now_utc c) t))
            (clear_completed-IsTracked c t))

    settled-place :
        (s : ℕ) (c d : SubtitleLifecycleCore)
        → IsSettled s c d
        → (d.completed_sequence ≡ some s) ⊎ (d.pending_final_sequence ≡ some s)
    settled-place s c d (same, latest, inl p) = inl p.0
    settled-place s c d (same, latest, inr p) = inr p.1

    -- A final is not lost: its sequence is then the completed or the pending one, and it has a
    -- record, also where the oldest records had to go.
    pub handle_transcript-final :
        (event : TranscriptEvent) (c : SubtitleLifecycleCore)
        → event.event ≡ final
        → ((handle_transcript hash_order config now now_utc event c).completed_sequence
              ≡ some event.sequence
            ⊎ (handle_transcript hash_order config now now_utc event c).pending_final_sequence
              ≡ some event.sequence)
          × (is_there
                (record_of event.sequence (handle_transcript hash_order config now now_utc event c))
              ≡ true)
    unfolding handle_transcript record_of
    handle_transcript-final event c e =
        let pruned = prune_old_records (note_final config now now_utc event c) in
        let settled =
          promote_or_defer-IsSettled hash_order config now now_utc event.sequence pruned in
        rw (handle_transcript, e)
          (
            settled-place event.sequence pruned
                (promote_or_defer hash_order config now now_utc event.sequence pruned) settled,
            rw (settled.0) (noted-there event c),
          )
