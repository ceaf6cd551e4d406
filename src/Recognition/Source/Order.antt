-- ===== src/Recognition/Source/Order.antt =====
-- crates/voicesub-runtime/src/browser_speech_source.rs and browser_event_builder.rs: the sequences of the events.
use stream_sub_translator.Common.{
  ℕ, zero, suc, ◌+◌, ◌^◌, ◌<◌, ltb, length, ◌≡◌, refl, ap, ◌∙◌, subst, inl, inr, Bool, not, ◌&&◌,
  ◌||◌, Option, none, some, List, [], ◌∷◌, map, Text, is_empty, trim, u64, u64-small, Option-cases,
  if_both, arith,
}
use stream_sub_translator.Events.{TranscriptEvent}
use stream_sub_translator.Recognition.Segments.{
  SegmentStateController, next_sequence, next_segment_id, clear_active_segment,
  clear_partial_tracking_for_segment, choose_segment, assign_segment_tracking,
  bump_active_segment_revision, is_id, trimmed,
}
use stream_sub_translator.Recognition.Emission.{clear_segment}
use stream_sub_translator.Recognition.Source.{
  IngestedAsrUpdate, BrowserSpeechSource, track, build_partial_event, build_final_event, Guarded,
  passed, dropped, note_stale_worker_event_ignored, guard_session, guard_generation, guard_sequence,
  and_then, guard, is_other, is_replayed, mark_of, seq_key, texts_of, update_lang, event_of,
  deliver, ingest_external_asr_update, Ingest, ingest_one, with_event, ingest_all,
}

-- No event leaves the sequence as it is, and an event has the next one.
abbrev Counts : ℕ → ℕ → Option TranscriptEvent → Type 0
Counts n after none = after ≡ n
Counts n after (some event) = (after ≡ u64 (n + 1)) × (event.sequence ≡ u64 (n + 1))

sequence-clear :
    (id : Option Text) (s : SegmentStateController)
    → (clear_partial_tracking_for_segment id s).sequence ≡ s.sequence
unfolding clear_partial_tracking_for_segment
sequence-clear none s = refl
sequence-clear (some id) s =
    if_both (λ (t : SegmentStateController). t.sequence ≡ s.sequence) (is_empty (trim id)) s _ refl
      refl

sequence-choose :
    (id : Option Text) (s : SegmentStateController) → (choose_segment id s).0.sequence ≡ s.sequence
unfolding choose_segment next_segment_id
sequence-choose none s = elim (Option-cases s.active_segment_id) [
  | inl e ↦ rw (choose_segment, e) refl
  | inr (a, e) ↦ rw (choose_segment, e) refl
]
sequence-choose (some id) s =
    if_both (λ (r : SegmentStateController × Bool × Option Text). r.0.sequence ≡ s.sequence)
      (is_id id s.active_segment_id) _ _ refl refl

sequence-track :
    (id : Option Text) (s : SegmentStateController) → (track id s).0.sequence ≡ s.sequence
unfolding track assign_segment_tracking bump_active_segment_revision
sequence-track id s =
    let assigned = assign_segment_tracking id s in
    sequence-clear assigned.1.previous_to_clear assigned.0 ∙ sequence-choose (trimmed id) s

build_partial-Counts :
    (is_active : Bool) (text lang : Text) (id : Option Text) (s : SegmentStateController)
    → Counts s.sequence
        (build_partial_event is_active text lang id s).0.sequence
        (build_partial_event is_active text lang id s).1
unfolding build_partial_event next_sequence
build_partial-Counts is_active text lang id s =
    let e = ap (λ n. u64 (n + 1)) (sequence-track id s) in
    if_both
      (λ (r : SegmentStateController × Option TranscriptEvent). Counts s.sequence r.0.sequence r.1)
      (not is_active || is_empty (trim text)) _ _ refl (e, e)

build_final-Counts :
    (is_active : Bool) (text lang : Text) (id : Option Text) (s : SegmentStateController)
    → Counts s.sequence
        (build_final_event is_active text lang id s).0.sequence
        (build_final_event is_active text lang id s).1
unfolding build_final_event next_sequence clear_active_segment clear_segment
build_final-Counts is_active text lang id s =
    let tracked = track id s in
    let e =
      ap (λ n. u64 (n + 1)) (sequence-clear (some tracked.1) tracked.0 ∙ sequence-track id s) in
    if_both
      (λ (r : SegmentStateController × Option TranscriptEvent). Counts s.sequence r.0.sequence r.1)
      (not is_active || is_empty (trim text)) _ _ refl (e, e)

event_of-Counts :
    (is_active : Bool) (configured : Option Text) (u : IngestedAsrUpdate)
    (s : SegmentStateController)
    → Counts s.sequence
        (event_of is_active configured u s).0.sequence
        (event_of is_active configured u s).1
unfolding event_of
event_of-Counts is_active configured u s =
    let P =
      λ (r : SegmentStateController × Option TranscriptEvent). Counts s.sequence r.0.sequence r.1 in
    let lang = update_lang configured u in
    let id = trimmed u.client_segment_id in
    if_both P (not (is_empty (texts_of u).0) && not u.is_final) _ _
      (build_partial-Counts is_active (texts_of u).0 lang id s)
      (if_both P (u.is_final && not (is_empty (texts_of u).1)) _ _
        (build_final-Counts is_active (texts_of u).1 lang id s) refl)

-- The source of a guard's answer.
abbrev pub held : Guarded → BrowserSpeechSource
held (passed source) = source
held (dropped source) = source

Keeps : BrowserSpeechSource → Guarded → Type 0
Keeps source g = (held g).segments ≡ source.segments

and_then-Keeps :
    (source : BrowserSpeechSource) (g : Guarded) (next : BrowserSpeechSource → Guarded)
    → Keeps source g
    → ((s : BrowserSpeechSource) → Keeps s (next s))
    → Keeps source (and_then g next)
unfolding Keeps
and_then-Keeps source (passed s) next h k = k s ∙ h
and_then-Keeps source (dropped s) next h k = h

session-Keeps :
    (id : Option Text) (source : BrowserSpeechSource) → Keeps source (guard_session id source)
unfolding Keeps guard_session note_stale_worker_event_ignored
session-Keeps none source = refl
session-Keeps (some id) source =
    if_both (λ g. (held g).segments ≡ source.segments) (is_other id source.active_session_id) _ _
      refl refl

generation-Keeps : (n : ℕ) (source : BrowserSpeechSource) → Keeps source (guard_generation n source)
unfolding Keeps guard_generation note_stale_worker_event_ignored
generation-Keeps n source =
    let P = λ (g : Guarded). (held g).segments ≡ source.segments in
    if_both P (ltb 0 n) _ _ (if_both P (ltb n source.active_generation_id) _ _ refl refl) refl

sequence-Keeps :
    (key : Text) (n : Option ℕ) (source : BrowserSpeechSource)
    → Keeps source (guard_sequence key n source)
unfolding Keeps guard_sequence
sequence-Keeps key none source = refl
sequence-Keeps key (some n) source =
    if_both (λ g. (held g).segments ≡ source.segments) (is_replayed n (mark_of key source)) _ _ refl
      refl

guard-Keeps : (u : IngestedAsrUpdate) (source : BrowserSpeechSource) → Keeps source (guard u source)
unfolding guard Keeps guard_generation
guard-Keeps u source =
    let id = trimmed u.session_id in
    and_then-Keeps source (guard_session id source) _ (session-Keeps id source) (λ s.
      and_then-Keeps s (guard_generation u.generation_id s) _ (generation-Keeps u.generation_id s)
        (λ t. sequence-Keeps (seq_key id u.generation_id) u.worker_message_sequence t))

deliver-Counts :
    (is_active : Bool) (configured : Option Text) (u : IngestedAsrUpdate) (g : Guarded)
    → Counts
        (held g).segments.sequence
        (deliver is_active configured u g).0.segments.sequence
        (deliver is_active configured u g).1
unfolding deliver
deliver-Counts is_active configured u (passed s) = event_of-Counts is_active configured u s.segments
deliver-Counts is_active configured u (dropped s) = refl

ingest_one-Counts :
    (i : Ingest) (source : BrowserSpeechSource)
    → Counts source.segments.sequence
        (ingest_one i source).0.segments.sequence
        (ingest_one i source).1
unfolding ingest_one ingest_external_asr_update Keeps
ingest_one-Counts i source =
    if_both
      (λ (r : BrowserSpeechSource × Option TranscriptEvent).
        Counts source.segments.sequence r.0.segments.sequence r.1)
      (not i.is_running) _ _ refl
      (subst
        (λ (s : SegmentStateController).
          Counts s.sequence
            (deliver i.is_active i.configured i.update (guard i.update source)).0.segments.sequence
            (deliver i.is_active i.configured i.update (guard i.update source)).1)
        (guard-Keeps i.update source)
        (deliver-Counts i.is_active i.configured i.update (guard i.update source)))

-- The numbers after `n`.
abbrev pub counted_from : ℕ → ℕ → List ℕ
counted_from n zero = []
counted_from n (suc k) = (n + 1) ∷ counted_from (n + 1) k

follow :
    (n after : ℕ) (o : Option TranscriptEvent) (events : List TranscriptEvent)
    → Counts n after o
    → n + length (with_event o events) < 2 ^ 64
    → (after + length events < 2 ^ 64
        → map (λ (e : TranscriptEvent). e.sequence) events ≡ counted_from after (length events))
    → map (λ (e : TranscriptEvent). e.sequence) (with_event o events)
      ≡ counted_from n (length (with_event o events))
follow n after none events c h k = k (omega (arith, c)) ∙ ap (λ m. counted_from m (length events)) c
follow n after (some event) events (c, e) h k =
    let w = u64-small (n + 1) (omega arith) in
    ap (λ m. m ∷ map (λ (x : TranscriptEvent). x.sequence) events) (e ∙ w)
    ∙ ap (◌∷◌ (n + 1)) (k (omega (arith, c, w)) ∙ ap (λ m. counted_from m (length events)) (c ∙ w))

-- The events that any updates give have the sequences that follow the one of the state, without a
-- gap, in the order in which they are delivered, as long as the counter does not wrap: an update
-- that is ignored takes none.
pub ingest_all-sequences :
    (is : List Ingest) (source : BrowserSpeechSource)
    → source.segments.sequence + length (ingest_all is source).1 < 2 ^ 64
    → map (λ (e : TranscriptEvent). e.sequence) (ingest_all is source).1
      ≡ counted_from source.segments.sequence (length (ingest_all is source).1)
unfolding ingest_all
ingest_all-sequences [] source h = refl
ingest_all-sequences (i ∷ is) source h =
    follow source.segments.sequence (ingest_one i source).0.segments.sequence
      (ingest_one i source).1 (ingest_all is (ingest_one i source).0).1 (ingest_one-Counts i source)
      h (λ k. ingest_all-sequences is (ingest_one i source).0 k)
