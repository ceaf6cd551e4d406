-- ===== src/Lib.antt =====
-- stream_sub_translator: live subtitles with translation. A recogniser sends transcripts, partial
-- and final; each final has a sequence number. The subtitle lifecycle keeps a record per sequence,
-- promotes one of them to the completed block that the overlay shows, and says for how long. The
-- translation dispatcher queues the finals, runs a bounded number of jobs at once, asks the
-- lifecycle before it publishes whether a sequence is still relevant, and publishes the results,
-- which come back to the lifecycle. The cache spares the providers texts that they have translated
-- before. The recogniser is a worker in a browser, whose updates are guarded against repetition and
-- numbered; a controller replaces words and hands each event to the subtitles first and to the
-- translation then. The router is an actor that owns the lifecycle, serves its commands one at a
-- time and publishes the payload that the overlay shows. The speech planner chooses the lines of a
-- payload that are spoken, and the speech queues hold what text to speech has still to say.
--
-- What is modelled, by file (paths from the root of the repository):
--
--   Events                  crates/voicesub-subtitle/src/types.rs: the events.
--   Translation/Cache       crates/voicesub-translation/src/cache.rs. `CacheState` is the struct,
--                           `insert_locked`, `get_locked`, `evict_locked` and `touch_locked` are the
--                           functions of these names. Cache/Lru is the ideal list in order of
--                           recency, Cache/Insert and Cache/Reads compare the two. Cache/Persist is
--                           the file: `ensure_loaded`, `maybe_flush`, `write_atomic`, `clear`, `get`,
--                           `insert`, `update_settings`. The file system and serde_json are the record
--                           `Storage`, an argument; Persist/Reload states what they promise, and
--                           Persist/Flushed joins an insertion, its flush and a new process.
--   Translation/Lineage     crates/voicesub-translation/src/preview_lineage.rs.
--   Translation/Dispatcher  crates/voicesub-translation/src/dispatcher.rs. `DispatcherInner` is what the
--                           mutex guards. A function is what one holder of the lock does: `take` and
--                           `register` are the two locked parts of `worker_loop`, `finish` is the end
--                           of a spawned task, `allocate_job` is the first locked part of
--                           `submit_final`, `cancel_sequences` and `cancel_apply` are the two parts of
--                           `cancel_older_than`. Dispatcher/Workers joins them to a step relation in
--                           which any task may come next; a worker that a stop has aborted may go on
--                           until it ends, beside a new one. Dispatcher/Publish is `run_job`: what it
--                           asks and what comes back are an argument, the events that it publishes
--                           are its result.
--   Subtitle/Settings       the fields of the JSON configuration that the subtitle code reads, and
--                           `lifecycle_config`, `translation_slot_map` and the like.
--   Subtitle/Presentation   crates/voicesub-subtitle/src/presentation.rs: `resolved_display_order` and
--                           `build_payload`. Subtitle/Current is `build_presentation_payload`:
--                           `partial_payload` is its early return, `joined_payload` what it does
--                           with a completed block beside a partial.
--   Subtitle/Lifecycle      crates/voicesub-subtitle/src/lifecycle.rs: the state and what it answers;
--                           Lifecycle/Promotion is pruning, the schedule and `promote_or_defer`;
--                           Lifecycle/Handlers is `handle_transcript`, `handle_translation` and
--                           `on_expiry_tick`; Lifecycle/Sessions is a sequence of calls,
--                           Lifecycle/Relevance is what the dispatcher is told.
--   Subtitle/Router         crates/voicesub-subtitle/src/router_actor.rs: `process_source` serves one
--                           command; a reply that is sent is part of its result. Router/Actor is
--                           `run_actor`: a turn of its loop serves the oldest source command, or the
--                           oldest translation where no source command waits.
--   Recognition/Segments    crates/voicesub-runtime/src/segment_state.rs.
--   Recognition/Emission    crates/voicesub-runtime/src/http/partial_emit.rs.
--   Recognition/Source      crates/voicesub-runtime/src/browser_speech_source.rs: the guards of
--                           `ingest_external_asr_update`, which may drop an update, and the events of
--                           crates/voicesub-runtime/src/browser_event_builder.rs.
--   Recognition/Transcript  crates/voicesub-runtime/src/transcript_controller.rs: the effects of
--                           `handle_event`, in order. The replacement of texts is an argument.
--   Version                 crates/voicesub-types/src/version.rs: `parse_semver`, `format_semver`,
--                           `is_remote_version_newer`, `extract_latest_github_release`,
--                           `build_version_info_payload`.
--   Tts/Planner             crates/voicesub-tts/src/subtitle_speech.rs: `plan`, the keys and their pruning.
--   Tts/Queue               crates/voicesub-tts/src/queue.rs: `enqueue_with_cap`, `begin_next`,
--                           `mark_finished`, `pause`, `resume`, `force_idle`; `clear_queue` is `clear`.
--   Tts/Channels            crates/voicesub-tts/src/channel_queue.rs: `channel_enqueue` and the like are
--                           the methods of `DualChannelSpeechQueue` without that prefix.
--   Twitch/Replacement      crates/voicesub-twitch/src/source_text_replacement.rs: the settings,
--                           `effective_replacement_pairs`, `apply_source_text_replacement`.
--   Twitch/Filter           crates/voicesub-twitch/src/filter.rs and replacements.rs.
--   Ws/Sequencer            crates/voicesub-ws/src/event_sequence.rs: `enrich`, `reset_broadcast_state`.
--   Common                  shared names, maps, texts and list lemmas.
--   Tests                   runs of the functions, and the theorems at concrete inputs.
--
-- A hash map is an association list in which a key stands once; where the code sees the order of
-- its keys, that order is an argument, `hash_order`. A text is the list of its code points. Times
-- are natural numbers, milliseconds unless said otherwise, and a call reads its clock once. In the
-- dispatcher, the lifecycle and the lineage the counters of type u64 and usize are natural numbers:
-- they start at zero and grow by one for a job or an event; those of the router and of the segments
-- wrap at 2 ^ 64, and that of the event sequencer stops at the last number. The code's saturating
-- subtraction is the subtraction on natural numbers.
--
-- Fuel: the overflow loop of `enqueue_job` runs on fuel. More fuel than there are queued jobs is
-- enough, since each round that does not end takes a job away. The loop of
-- `schedule_overlay_publish` has fuel for two passes: nothing sets the pending flag while it runs, so
-- that the second pass is the last one. The digits of a number n have fuel n + 1. The other loops are
-- recursions on a list.
--
-- Not modelled: the metrics, the logs and the trace; the limits and the waits per provider; the
-- providers themselves, and the engine beyond the records that the dispatcher reads; `style.rs` and
-- the overlay broadcaster; the crate `regex`, which is an argument; of text to speech, the
-- orchestrator of a channel, the fetching and the playback; and the rest of the crates for audio,
-- browser, configuration, export, HTTP, logging, OBS, runtime, Twitch and web sockets, most of which
-- are input and output around the parts above.
pub mod Common
pub mod Events
pub mod Subtitle
pub mod Translation
pub mod Recognition
pub mod Version
pub mod Tts
pub mod Twitch
pub mod Ws
pub mod Tests
