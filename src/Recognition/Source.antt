-- ===== src/Recognition/Source.antt =====
-- crates/voicesub-runtime/src/browser_speech_source.rs and browser_event_builder.rs: the updates of the browser
-- worker, and the transcript events that are built of them.
pub mod Order
pub mod Replay
use stream_sub_translator.Common.{
  ℕ, zero, suc, ◌+◌, ◌-◌, ◌^◌, ltb, leb, min, Bool, true, false, not, ◌&&◌, ◌||◌, if◌then◌else◌,
  Option, none, some, List, [], ◌∷◌, ◌++◌, Text, Text-discrete, codes, same, is_empty, trim,
  to_ascii_lowercase, lookup, insert, decimal,
}
use stream_sub_translator.Events.{partial, final, TranscriptSegment, TranscriptEvent}
use stream_sub_translator.Subtitle.Settings.{or_default}
use stream_sub_translator.Recognition.Segments.{
  SegmentStateController, assign_segment_tracking, clear_partial_tracking_for_segment,
  next_sequence, clear_active_segment, trimmed,
}
use stream_sub_translator.Recognition.Emission.{clear_segment}

-- `IngestedAsrUpdate`, of crates/voicesub-browser/src/service.rs.
pub record IngestedAsrUpdate : Type 0 where
  pub partial_text : Text
  pub final_text : Text
  pub is_final : Bool
  pub source_lang : Option Text
  pub generation_id : ℕ
  pub session_id : Option Text
  pub client_segment_id : Option Text
  pub forced_final : Bool
  pub transport_id : ℕ
  pub worker_message_sequence : Option ℕ

-- `BrowserSpeechSource`, with the segments that its event builder shares and the counter of the
-- gateway that it raises.
pub record BrowserSpeechSource : Type 0 where
  pub active_session_id : Option Text
  pub active_generation_id : ℕ
  pub sequence_watermark : List (Text × ℕ)
  pub segments : SegmentStateController
  pub stale_worker_events_ignored : ℕ

unfoldable pub start : BrowserSpeechSource → BrowserSpeechSource
start source = record source {
  active_session_id = none;
  active_generation_id = 0;
  sequence_watermark = [];
}

unfoldable pub seq_key : Option Text → ℕ → Text
unfolding decimal
seq_key session_id generation_id = or_default [] session_id ++ codes ":" ++ decimal generation_id

build_worker_segment : Text → ℕ → Text → Bool → Text → ℕ → TranscriptSegment
build_worker_segment segment_id revision text is_final source_lang sequence = record {
  segment_id = segment_id;
  text = text;
  is_final = is_final;
  source_lang = source_lang;
  provider = some (codes "browser_google");
  sequence = sequence;
  revision = revision;
  start_ms = some 0;
  end_ms = some 0;
}

-- What both events begin with: the segment, and the tracking of the one before it cleared.
unfoldable pub track : Option Text → SegmentStateController → SegmentStateController × Text × ℕ
unfolding assign_segment_tracking clear_partial_tracking_for_segment
track client_segment_id segments =
    let assigned = assign_segment_tracking client_segment_id segments in
    (
      clear_partial_tracking_for_segment assigned.1.previous_to_clear assigned.0,
      assigned.1.segment_id,
      assigned.1.revision,
    )

unfoldable pub build_partial_event :
    Bool
    → Text
    → Text
    → Option Text
    → SegmentStateController
    → SegmentStateController × Option TranscriptEvent
unfolding trim track next_sequence build_worker_segment
build_partial_event is_active text source_lang client_segment_id segments =
    if not is_active || is_empty (trim text)
    then (segments, none)
    else let tracked = track client_segment_id segments in
      let next = next_sequence tracked.0 in
      (
        next.0,
        some (record {
          event = partial;
          text = text;
          sequence = next.1;
          segment = some (build_worker_segment tracked.1 tracked.2 text false source_lang next.1);
        }),
      )

unfoldable pub build_final_event :
    Bool
    → Text
    → Text
    → Option Text
    → SegmentStateController
    → SegmentStateController × Option TranscriptEvent
unfolding trim track clear_segment next_sequence build_worker_segment clear_active_segment
build_final_event is_active text source_lang client_segment_id segments =
    if not is_active || is_empty (trim text)
    then (segments, none)
    else let tracked = track client_segment_id segments in
      let next = next_sequence (clear_segment tracked.1 tracked.0) in
      (
        clear_active_segment next.0,
        some (record {
          event = final;
          text = text;
          sequence = next.1;
          segment = some (build_worker_segment tracked.1 tracked.2 text true source_lang next.1);
        }),
      )

-- Whether an update goes on after a guard: it may be dropped, with what the guard has changed.
pub data Guarded : Type 0 where
  passed dropped : BrowserSpeechSource → Guarded

unfoldable pub note_stale_worker_event_ignored : BrowserSpeechSource → BrowserSpeechSource
note_stale_worker_event_ignored source = record source {
  stale_worker_events_ignored = min (source.stale_worker_events_ignored + 1) (2 ^ 64 - 1);
}

abbrev pub is_other : Text → Option Text → Bool
is_other session_id none = false
is_other session_id (some active) = not (same active session_id)

unfoldable pub guard_session : Option Text → BrowserSpeechSource → Guarded
unfolding note_stale_worker_event_ignored same
guard_session none source = passed source
guard_session (some session_id) source =
    if is_other session_id source.active_session_id
    then dropped (note_stale_worker_event_ignored source)
    else passed (record source { active_session_id = some session_id })

unfoldable pub guard_generation : ℕ → BrowserSpeechSource → Guarded
unfolding note_stale_worker_event_ignored
guard_generation generation_id source =
    if ltb 0 generation_id
    then (if ltb generation_id source.active_generation_id
        then dropped (note_stale_worker_event_ignored source)
        else passed (record source { active_generation_id = generation_id }))
    else passed source

-- `seq <= prev`, where a sequence from 2 ^ 63 on is a negative `i64`, and `prev` is -1 for a key
-- without a mark.
unfoldable pub is_replayed : ℕ → Option ℕ → Bool
is_replayed sequence none = leb (2 ^ 63) sequence
is_replayed sequence (some previous) = leb (2 ^ 63) sequence || leb sequence previous

unfoldable pub mark_of : Text → BrowserSpeechSource → Option ℕ
unfolding lookup
mark_of key source = lookup Text-discrete key source.sequence_watermark

unfoldable pub guard_sequence : Text → Option ℕ → BrowserSpeechSource → Guarded
unfolding is_replayed mark_of insert
guard_sequence key none source = passed source
guard_sequence key (some sequence) source =
    if is_replayed sequence (mark_of key source)
    then dropped source
    else passed (record source {
      sequence_watermark = insert Text-discrete key sequence source.sequence_watermark;
    })

abbrev pub and_then : Guarded → (BrowserSpeechSource → Guarded) → Guarded
and_then (passed source) next = next source
and_then (dropped source) next = dropped source

unfoldable pub guard : IngestedAsrUpdate → BrowserSpeechSource → Guarded
unfolding guard_session guard_generation guard_sequence trimmed seq_key
guard update source =
    let session_id = trimmed update.session_id in
    let key = seq_key session_id update.generation_id in
    and_then (guard_session session_id source) (λ s.
      and_then (guard_generation update.generation_id s)
        (λ t. guard_sequence key update.worker_message_sequence t))

browser_source_lang : Option Text → Text
unfolding trim to_ascii_lowercase
browser_source_lang configured = to_ascii_lowercase (trim (or_default (codes "auto") configured))

unfoldable pub update_lang : Option Text → IngestedAsrUpdate → Text
unfolding trimmed to_ascii_lowercase browser_source_lang
update_lang configured update = elim (trimmed update.source_lang) [
  | none ↦ browser_source_lang configured
  | some lang ↦ to_ascii_lowercase lang
]

-- The partial and the final text, where a final without a text takes that of the partial.
unfoldable pub texts_of : IngestedAsrUpdate → Text × Text
unfolding trim
texts_of update =
    let partial_text = trim update.partial_text in
    let final_text = trim update.final_text in
    if update.is_final && (is_empty final_text && not (is_empty partial_text))
    then ([], partial_text)
    else (partial_text, final_text)

-- The event of an update that has passed the guards, if it has one.
unfoldable pub event_of :
    Bool
    → Option Text
    → IngestedAsrUpdate
    → SegmentStateController
    → SegmentStateController × Option TranscriptEvent
unfolding update_lang texts_of trimmed build_partial_event build_final_event
event_of is_active configured update segments =
    let lang = update_lang configured update in
    let texts = texts_of update in
    let id = trimmed update.client_segment_id in
    if not (is_empty texts.0) && not update.is_final
    then build_partial_event is_active texts.0 lang id segments
    else if update.is_final && not (is_empty texts.1)
    then build_final_event is_active texts.1 lang id segments
    else (segments, none)

unfoldable pub deliver :
    Bool → Option Text → IngestedAsrUpdate → Guarded → BrowserSpeechSource × Option TranscriptEvent
unfolding event_of
deliver is_active configured update (dropped source) = (source, none)
deliver is_active configured update (passed source) =
    let built = event_of is_active configured update source.segments in
    (record source { segments = built.0 }, built.1)

-- `runtime_running` is read at the start, and once more when the event is built.
unfoldable pub ingest_external_asr_update :
    Bool
    → Bool
    → Option Text
    → IngestedAsrUpdate
    → BrowserSpeechSource
    → BrowserSpeechSource × Option TranscriptEvent
unfolding guard deliver
ingest_external_asr_update is_running is_active configured update source =
    if not is_running
    then (source, none)
    else deliver is_active configured update (guard update source)

-- A call, with what it reads.
pub record Ingest : Type 0 where
  pub is_running : Bool
  pub is_active : Bool
  pub configured : Option Text
  pub update : IngestedAsrUpdate

unfoldable pub ingest_one :
    Ingest → BrowserSpeechSource → BrowserSpeechSource × Option TranscriptEvent
unfolding ingest_external_asr_update
ingest_one i source =
    ingest_external_asr_update i.is_running i.is_active i.configured i.update source

abbrev pub with_event : Option TranscriptEvent → List TranscriptEvent → List TranscriptEvent
with_event none events = events
with_event (some event) events = event ∷ events

-- The events of calls one after the other, in their order.
unfoldable pub ingest_all :
    List Ingest → BrowserSpeechSource → BrowserSpeechSource × List TranscriptEvent
unfolding ingest_one
ingest_all [] source = (source, [])
ingest_all (i ∷ is) source =
    let one = ingest_one i source in
    let rest = ingest_all is one.0 in (rest.0, with_event one.1 rest.1)
