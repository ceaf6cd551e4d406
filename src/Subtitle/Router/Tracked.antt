-- ===== src/Subtitle/Router/Tracked.antt =====
-- crates/voicesub-subtitle/src/router_actor.rs: what stays true of the state under any commands in any order.
use stream_sub_translator.Common.{
  u64, ℕ, ◌+◌, ◌≤◌, inl, inr, length-append, Bool-cases, arith, ◌≡◌, sym, subst, true, false, ◌||◌,
  ltb, length, List, [], ◌∷◌, ◌++◌, Text, if_both,
}
use stream_sub_translator.Subtitle.Settings.{Config}
use stream_sub_translator.Subtitle.Lifecycle.Invariant.{IsTracked}
use stream_sub_translator.Subtitle.Lifecycle.{SubtitleLifecycleCore}
use stream_sub_translator.Subtitle.Lifecycle.Promotion.{reset, clear_active_partial}
use stream_sub_translator.Subtitle.Lifecycle.Handlers.{on_expiry_tick}
use stream_sub_translator.Subtitle.Lifecycle.Sessions.{Call, call_one, call_one-IsTracked}
use stream_sub_translator.Subtitle.Router.{
  RouterInner, SourceCommand, transcript, expiry_tick, clear_partial, reset_all, republish,
  flush_publish, ingest_browser_text, query_translation_relevance, query_presentation_relevance,
  query_record, TranslationCommand, translation, apply_transcript, apply_translation, ingest,
  browser_event, schedule_overlay_publish, flush_overlay_publish, process_translation_command,
  drain_translation_queue, process_source, is_any,
}
use stream_sub_translator.Subtitle.Router.Publish.{
  IsQuiet, schedule-lifecycle, schedule-IsQuiet, process_source-IsPublished,
}
use stream_sub_translator.Subtitle.Router.Actor.{
  Actor, Happening, source_sent, translation_sent, turned, source_capacity, translation_capacity,
  turn, happen, run_actor,
}

-- The lifecycle is tracked.
abbrev Tracks : RouterInner → Type 0
Tracks inner = IsTracked inner.lifecycle

module _ (hash_order : List Text → List Text) (config : Config) (now now_utc : ℕ) where
  schedule-Tracks :
      (inner : RouterInner)
      → Tracks inner
      → Tracks (schedule_overlay_publish hash_order config now now_utc inner)
  schedule-Tracks inner t =
      subst IsTracked (sym (schedule-lifecycle hash_order config now now_utc inner)) t

  flush-Tracks :
      (inner : RouterInner)
      → Tracks inner
      → Tracks (flush_overlay_publish hash_order config now now_utc inner)
  unfolding flush_overlay_publish
  flush-Tracks inner t = schedule-Tracks (record inner { overlay_publish_pending = false }) t

  call-IsTracked :
      (call : Call) (core : SubtitleLifecycleCore)
      → IsTracked core
      → IsTracked (call_one hash_order config now now_utc call core)
  call-IsTracked call core t = call_one-IsTracked hash_order config now now_utc call core t

  drain-Tracks :
      (commands : List TranslationCommand) (inner : RouterInner)
      → Tracks inner
      → Tracks (drain_translation_queue hash_order config now now_utc commands inner).0
  unfolding drain_translation_queue process_translation_command apply_translation call_one
  drain-Tracks [] inner t = t
  drain-Tracks (translation event wants ∷ commands) inner t =
      let applied = apply_translation hash_order config now now_utc event inner in
      drain-Tracks commands (schedule_overlay_publish hash_order config now now_utc applied)
        (schedule-Tracks applied (call-IsTracked (Call.translated event) inner.lifecycle t))

  process_source-Tracks :
      (command : SourceCommand) (waiting : List TranslationCommand) (inner : RouterInner)
      → Tracks inner
      → Tracks (process_source hash_order config now now_utc command waiting inner).0
  unfolding process_source apply_transcript ingest call_one
  process_source-Tracks (transcript event wants) waiting inner t =
      schedule-Tracks (apply_transcript hash_order config now now_utc event inner)
        (call-IsTracked (Call.transcript event) inner.lifecycle t)
  process_source-Tracks (expiry_tick sequence) waiting inner t =
      schedule-Tracks
        (record inner {
          lifecycle = on_expiry_tick hash_order config now now_utc sequence inner.lifecycle;
        })
        (call-IsTracked (Call.tick sequence) inner.lifecycle t)
  process_source-Tracks clear_partial waiting inner t =
      schedule-Tracks (record inner { lifecycle = clear_active_partial inner.lifecycle })
        (call-IsTracked Call.cleared inner.lifecycle t)
  process_source-Tracks reset_all waiting inner t =
      let restarted = record inner { lifecycle = reset inner.lifecycle; next_sequence = 0 } in
      flush-Tracks (schedule_overlay_publish hash_order config now now_utc restarted)
        (schedule-Tracks restarted (call-IsTracked Call.restarted inner.lifecycle t))
  process_source-Tracks republish waiting inner t = schedule-Tracks inner t
  process_source-Tracks flush_publish waiting inner t =
      let drained = drain_translation_queue hash_order config now now_utc waiting inner in
      let d = drain-Tracks waiting inner t in
      if_both Tracks
        (is_any hash_order config now now_utc waiting
          || (drained.0.overlay_publish_pending || drained.0.overlay_publish_in_flight))
        (schedule_overlay_publish hash_order config now now_utc drained.0) drained.0
        (schedule-Tracks drained.0 d) d
  process_source-Tracks (ingest_browser_text text is_final lang provider) waiting inner t =
      let done = ingest hash_order config now now_utc text is_final lang provider inner in
      let event =
        browser_event config (u64 (inner.next_sequence + 1)) text is_final lang provider in
      flush-Tracks (schedule_overlay_publish hash_order config now now_utc done.0)
        (schedule-Tracks done.0 (call-IsTracked (Call.transcript event) inner.lifecycle t))
  process_source-Tracks (query_translation_relevance sequence) waiting inner t = t
  process_source-Tracks (query_presentation_relevance sequence) waiting inner t = t
  process_source-Tracks (query_record sequence) waiting inner t = t

-- Tracked, quiet, and no more in a queue than its channel holds.
abbrev pub IsSound : Actor → Type 0
IsSound actor =
    Tracks actor.inner
    × IsQuiet actor.inner
    × (length actor.source_queue ≤ source_capacity)
    × (length actor.translation_queue ≤ translation_capacity)

send-length :
    {A : Type 0} (n : ℕ) (x : A) (xs : List A)
    → length xs ≤ n
    → ltb (length xs) n ≡ true
    → length (xs ++ x ∷ []) ≤ n
send-length n x xs h e = ground (arith, length-append xs (x ∷ []))

module _ (hash_order : List Text → List Text) (config : Config) (now now_utc : ℕ) where
  pub waiting-length :
      (command : SourceCommand) (waiting : List TranslationCommand) (inner : RouterInner)
      → length (process_source hash_order config now now_utc command waiting inner).1
        ≤ length waiting
  unfolding process_source
  waiting-length (transcript event wants) waiting inner = omega arith
  waiting-length (expiry_tick sequence) waiting inner = omega arith
  waiting-length clear_partial waiting inner = omega arith
  waiting-length reset_all waiting inner = omega arith
  waiting-length republish waiting inner = omega arith
  waiting-length flush_publish waiting inner = omega arith
  waiting-length (ingest_browser_text text is_final lang provider) waiting inner = omega arith
  waiting-length (query_translation_relevance sequence) waiting inner = omega arith
  waiting-length (query_presentation_relevance sequence) waiting inner = omega arith
  waiting-length (query_record sequence) waiting inner = omega arith

  turn-IsSound :
      (inner : RouterInner) (source : List SourceCommand) (waiting : List TranslationCommand)
      → IsSound (record { inner = inner; source_queue = source; translation_queue = waiting })
      → IsSound
          (turn hash_order config now now_utc
            (record { inner = inner; source_queue = source; translation_queue = waiting })).0
  unfolding turn process_translation_command apply_translation call_one
  turn-IsSound inner [] [] h = h
  turn-IsSound inner [] (translation event wants ∷ commands) (t, q, s, w) =
      let applied = apply_translation hash_order config now now_utc event inner in
      (
        schedule-Tracks hash_order config now now_utc applied (
            call-IsTracked hash_order config now now_utc (Call.translated event) inner.lifecycle t),
        schedule-IsQuiet hash_order config now now_utc applied q,
        s,
        omega arith,
      )
  turn-IsSound inner (command ∷ commands) waiting (t, q, s, w) = (
    process_source-Tracks hash_order config now now_utc command waiting inner t,
    (process_source-IsPublished hash_order config now now_utc command waiting inner q).0,
    omega arith,
    omega (arith, waiting-length command waiting inner),
  )

happen-IsSound :
    (hash_order : List Text → List Text) (h : Happening) (actor : Actor)
    → IsSound actor
    → IsSound (happen hash_order h actor)
unfolding happen
happen-IsSound hash_order (source_sent command) actor (t, q, s, w) =
    elim (Bool-cases (ltb (length actor.source_queue) source_capacity)) [
      | inl e ↦ rw (happen, e) (t, q, send-length source_capacity command actor.source_queue s e, w)
      | inr e ↦ rw (happen, e) (t, q, s, w)
    ]
happen-IsSound hash_order (translation_sent command) actor (t, q, s, w) =
    elim (Bool-cases (ltb (length actor.translation_queue) translation_capacity)) [
      | inl e ↦
          rw (happen, e)
            (t, q, s, send-length translation_capacity command actor.translation_queue w e)
      | inr e ↦ rw (happen, e) (t, q, s, w)
    ]
happen-IsSound hash_order (turned config now now_utc) actor h =
    turn-IsSound hash_order config now now_utc actor.inner actor.source_queue
      actor.translation_queue h

-- Any sends and turns, in any order, under any configurations and clocks, keep this of an actor:
-- the completed, the pending and the latest final sequence of its lifecycle have records, no
-- publish is left pending or on its way, and no queue holds more than its channel.
pub run_actor-IsSound :
    (hash_order : List Text → List Text) (hs : List Happening) (actor : Actor)
    → IsSound actor
    → IsSound (run_actor hash_order hs actor)
unfolding run_actor
run_actor-IsSound hash_order [] actor h = h
run_actor-IsSound hash_order (happening ∷ hs) actor h =
    run_actor-IsSound hash_order hs (happen hash_order happening actor)
      (happen-IsSound hash_order happening actor h)
