-- ===== src/Subtitle/Lifecycle/Sessions.antt =====
-- crates/voicesub-subtitle/src/lifecycle.rs: all the calls of a session, in any order.
use stream_sub_translator.Common.{
  ℕ, ◌≡◌, refl, sym, ap, subst, ◌∙◌, ◌≤◌, ltb, ltb→lt, ltb→le, ◌==◌, any, All, arith, Bool-cases,
  true, some, inl, inr, not, if◌then◌else◌, Option, none, List, [], ◌∷◌, Text, if_both,
}
use stream_sub_translator.Events.{TranscriptEvent, TranslationEvent, partial, final}
use stream_sub_translator.Subtitle.Settings.{Config}
use stream_sub_translator.Subtitle.Lifecycle.{SubtitleLifecycleCore, is_sequence}
use stream_sub_translator.Subtitle.Lifecycle.Promotion.{
  prune_old_records, schedule_next_expiry_check, promote_or_defer,
  maybe_flush_pending_when_unblocked, reset, clear_active_partial,
}
use stream_sub_translator.Subtitle.Lifecycle.Tracking.{
  promote_or_defer-IsSettled, schedule_next-IsFramed,
}
use stream_sub_translator.Subtitle.Lifecycle.Invariant.{IsTracked}
use stream_sub_translator.Subtitle.Lifecycle.Handlers.{
  note_final, note_translation, handle_transcript, handle_translation, on_expiry_tick,
  clear_completed, without_completed, should_promote, must_stay, newest,
}
use stream_sub_translator.Subtitle.Lifecycle.Steps.{
  TranscriptKind-cases, flush-cases, clear-cases, handle_transcript-IsTracked,
  handle_translation-IsTracked, on_expiry_tick-IsTracked,
}

-- A call of the lifecycle, with the configuration and the clock that it reads.
pub data Call : Type 0 where
  transcript : TranscriptEvent → Call
  translated : TranslationEvent → Call
  tick : ℕ → Call
  cleared : Call
  restarted : Call

pub record Moment : Type 0 where
  pub config : Config
  pub now : ℕ
  pub now_utc : ℕ
  pub call : Call

module _ (hash_order : List Text → List Text) where
  unfoldable pub call_one : Config → ℕ → ℕ → Call → SubtitleLifecycleCore → SubtitleLifecycleCore
  unfolding handle_transcript handle_translation on_expiry_tick clear_active_partial
  call_one config now now_utc (transcript event) core =
      handle_transcript hash_order config now now_utc event core
  call_one config now now_utc (translated event) core =
      handle_translation hash_order config now now_utc event core
  call_one config now now_utc (tick sequence) core =
      on_expiry_tick hash_order config now now_utc sequence core
  call_one config now now_utc cleared core = clear_active_partial core
  call_one config now now_utc restarted core = reset core

  unfoldable pub session : List Moment → SubtitleLifecycleCore → SubtitleLifecycleCore
  unfolding call_one
  session [] core = core
  session (m ∷ ms) core = session ms (call_one m.config m.now m.now_utc m.call core)

  reset-IsTracked : (c : SubtitleLifecycleCore) → IsTracked (reset c)
  reset-IsTracked c = (refl, refl, refl)

  pub call_one-IsTracked :
      (config : Config) (now now_utc : ℕ) (call : Call) (c : SubtitleLifecycleCore)
      → IsTracked c
      → IsTracked (call_one config now now_utc call c)
  unfolding call_one clear_active_partial
  call_one-IsTracked config now now_utc (transcript event) c t =
      handle_transcript-IsTracked hash_order config now now_utc event c t
  call_one-IsTracked config now now_utc (translated event) c t =
      handle_translation-IsTracked hash_order config now now_utc event c t
  call_one-IsTracked config now now_utc (tick s) c t =
      on_expiry_tick-IsTracked hash_order config now now_utc s c t
  call_one-IsTracked config now now_utc cleared c t = t
  call_one-IsTracked config now now_utc restarted c t = reset-IsTracked c

  -- Any calls, in any order, under any configurations and clocks, keep this of a state: the
  -- completed, the pending and the latest final sequence each have a record, if there is one.
  -- Pruning and expiry take no record that is still named.
  pub session-IsTracked :
      (ms : List Moment) (c : SubtitleLifecycleCore) → IsTracked c → IsTracked (session ms c)
  unfolding session
  session-IsTracked [] c t = t
  session-IsTracked (m ∷ ms) c t =
      session-IsTracked ms (call_one m.config m.now m.now_utc m.call c)
        (call_one-IsTracked m.config m.now m.now_utc m.call c t)

-- What one call makes of the latest final sequence.
abbrev latest_of_call : Call → Option ℕ → Option ℕ
latest_of_call (transcript event) o = elim event.event [
  | partial ↦ o
  | final ↦ newest event.sequence o
]
latest_of_call (translated event) o = o
latest_of_call (tick sequence) o = o
latest_of_call cleared o = o
latest_of_call restarted o = none

-- The sequences of the finals that count after the calls: those before them, and those among them
-- since the last restart.
abbrev counted_call : Call → List ℕ → List ℕ
counted_call (transcript event) ns = elim event.event [ partial ↦ ns | final ↦ event.sequence ∷ ns ]
counted_call (translated event) ns = ns
counted_call (tick sequence) ns = ns
counted_call cleared ns = ns
counted_call restarted ns = []

unfoldable pub counted : List Moment → List ℕ → List ℕ
counted [] ns = ns
counted (m ∷ ms) ns = counted ms (counted_call m.call ns)

-- The largest of the numbers, and none where there is no number.
abbrev pub IsLargest : Option ℕ → List ℕ → Type 0
IsLargest none ns = ns ≡ []
IsLargest (some n) ns = (any (λ m. m == n) ns ≡ true) × All (λ m. m ≤ n) ns

All-weaken_le : (a b : ℕ) (ns : List ℕ) → a ≤ b → All (λ m. m ≤ a) ns → All (λ m. m ≤ b) ns
All-weaken_le a b [] le h = tt
All-weaken_le a b (n ∷ ns) le (h, hs) = (omega arith, All-weaken_le a b ns le hs)

newest-IsLargest :
    (s : ℕ) (o : Option ℕ) (ns : List ℕ) → IsLargest o ns → IsLargest (newest s o) (s ∷ ns)
newest-IsLargest s none ns h = rw h (ground arith, (omega arith, tt))
newest-IsLargest s (some n) ns (there, below) = elim (Bool-cases (ltb n s)) [
  | inl e ↦
      let lt = ltb→lt n s e in
      rw e (ground arith, (omega arith, All-weaken_le n s ns (omega arith) below))
  | inr e ↦ let le = ltb→le n s e in rw e (ground (arith, there), (le, below))
]

counted_call-IsLargest :
    (call : Call) (o : Option ℕ) (ns : List ℕ)
    → IsLargest o ns
    → IsLargest (latest_of_call call o) (counted_call call ns)
counted_call-IsLargest (transcript event) o ns h = elim (TranscriptKind-cases event.event) [
  | inl e ↦ rw e h
  | inr e ↦ rw e (newest-IsLargest event.sequence o ns h)
]
counted_call-IsLargest (translated event) o ns h = h
counted_call-IsLargest (tick sequence) o ns h = h
counted_call-IsLargest cleared o ns h = h
counted_call-IsLargest restarted o ns h = refl

module _ (hash_order : List Text → List Text) (config : Config) (now now_utc : ℕ) where
  latest-settled :
      (s : ℕ) (c : SubtitleLifecycleCore)
      → (promote_or_defer hash_order config now now_utc s c).latest_final_sequence
        ≡ c.latest_final_sequence
  latest-settled s c = (promote_or_defer-IsSettled hash_order config now now_utc s c).1

  latest-flush :
      (c : SubtitleLifecycleCore)
      → (maybe_flush_pending_when_unblocked hash_order config now now_utc c).latest_final_sequence
        ≡ c.latest_final_sequence
  latest-flush c = elim (flush-cases hash_order config now now_utc c) [
    | inl e ↦ ap (λ (d : SubtitleLifecycleCore). d.latest_final_sequence) e
    | inr (p, h, e) ↦
        ap (λ (d : SubtitleLifecycleCore). d.latest_final_sequence) e ∙ latest-settled p c
  ]

  latest-clear :
      (c : SubtitleLifecycleCore)
      → (clear_completed hash_order config now now_utc c).latest_final_sequence
        ≡ c.latest_final_sequence
  latest-clear c = elim (clear-cases hash_order config now now_utc c) [
    | inl e ↦ ap (λ (d : SubtitleLifecycleCore). d.latest_final_sequence) e
    | inr (p, h, e) ↦
        ap (λ (d : SubtitleLifecycleCore). d.latest_final_sequence) e
        ∙ latest-settled p (without_completed c)
  ]

  latest-transcript :
      (event : TranscriptEvent) (c : SubtitleLifecycleCore)
      → (handle_transcript hash_order config now now_utc event c).latest_final_sequence
        ≡ latest_of_call (transcript event) c.latest_final_sequence
  unfolding handle_transcript note_final prune_old_records
  latest-transcript event c = elim (TranscriptKind-cases event.event) [
    | inl e ↦ rw (handle_transcript, e) refl
    | inr e ↦
        rw (handle_transcript, e)
          (latest-settled event.sequence
            (prune_old_records (note_final config now now_utc event c)))
  ]

  latest-translation :
      (event : TranslationEvent) (c : SubtitleLifecycleCore)
      → (handle_translation hash_order config now now_utc event c).latest_final_sequence
        ≡ c.latest_final_sequence
  unfolding handle_translation note_translation
  latest-translation event c =
      let noted = note_translation config event c in
      let settled = promote_or_defer hash_order config now now_utc event.sequence noted in
      latest-flush (if should_promote event.sequence noted then settled else noted)
      ∙ if_both (λ (d : SubtitleLifecycleCore). d.latest_final_sequence ≡ c.latest_final_sequence)
          (should_promote event.sequence noted) settled noted (latest-settled event.sequence noted)
          refl

  latest-tick :
      (s : ℕ) (c : SubtitleLifecycleCore)
      → (on_expiry_tick hash_order config now now_utc s c).latest_final_sequence
        ≡ c.latest_final_sequence
  unfolding on_expiry_tick
  latest-tick s c =
      let same = λ (d : SubtitleLifecycleCore). d.latest_final_sequence ≡ c.latest_final_sequence in
      if_both same (not (is_sequence s c.completed_sequence)) _ _ refl (
        if_both same (must_stay hash_order config now now_utc s c) _ _
          (latest-flush (schedule_next_expiry_check now now_utc c)
            ∙ (schedule_next-IsFramed now now_utc c).3)
          (latest-clear c))

  latest-call_one :
      (call : Call) (c : SubtitleLifecycleCore)
      → (call_one hash_order config now now_utc call c).latest_final_sequence
        ≡ latest_of_call call c.latest_final_sequence
  unfolding call_one clear_active_partial
  latest-call_one (transcript event) c = latest-transcript event c
  latest-call_one (translated event) c = latest-translation event c
  latest-call_one (tick s) c = latest-tick s c
  latest-call_one cleared c = refl
  latest-call_one restarted c = refl

-- If the latest final sequence is the largest of some numbers, or none where there are none, then
-- after any calls it is the largest of those numbers and the sequences of the finals among the
-- calls, counted from the last restart on, or none where nothing is counted: no translation and no
-- expiry moves it, and a late final with a smaller sequence does not either.
pub latest-session :
    (hash_order : List Text → List Text) (ms : List Moment) (c : SubtitleLifecycleCore)
    (ns : List ℕ)
    → IsLargest c.latest_final_sequence ns
    → IsLargest (session hash_order ms c).latest_final_sequence (counted ms ns)
unfolding session counted
latest-session hash_order [] c ns h = h
latest-session hash_order (m ∷ ms) c ns h =
    let after = call_one hash_order m.config m.now m.now_utc m.call c in
    latest-session hash_order ms after (counted_call m.call ns) (
      subst (λ o. IsLargest o (counted_call m.call ns))
        (sym (latest-call_one hash_order m.config m.now m.now_utc m.call c))
        (counted_call-IsLargest m.call c.latest_final_sequence ns h))
