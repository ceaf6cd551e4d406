-- ===== src/Subtitle/Router/Actor.antt =====
-- crates/voicesub-subtitle/src/router_actor.rs, `run_actor`: the two queues, and the order in which the
-- actor serves them. The actor ends when the senders of source commands are gone, and then serves
-- the translations that are left: to the queues this is one more turn like the others.
use stream_sub_translator.Common.{ℕ, ltb, length, if◌then◌else◌, List, [], ◌∷◌, ◌++◌, Text}
use stream_sub_translator.Subtitle.Settings.{Config}
use stream_sub_translator.Subtitle.Router.{
  RouterInner, SourceCommand, TranslationCommand, Reply, process_translation_command,
  process_source,
}

pub record Actor : Type 0 where
  pub inner : RouterInner
  pub source_queue : List SourceCommand
  pub translation_queue : List TranslationCommand

-- The capacities of the channels.
abbrev pub source_capacity : ℕ
source_capacity = 256

abbrev pub translation_capacity : ℕ
translation_capacity = 512

-- What happens to an actor: a send that finds room (a sender waits until it does), and a turn of its
-- loop under a configuration and a clock.
pub data Happening : Type 0 where
  source_sent : SourceCommand → Happening
  translation_sent : TranslationCommand → Happening
  turned : Config → ℕ → ℕ → Happening

module _ (hash_order : List Text → List Text) where
  -- A turn: the oldest source command, or the oldest translation where there is none.
  unfoldable pub turn : Config → ℕ → ℕ → Actor → Actor × List Reply
  unfolding process_source process_translation_command
  turn config now now_utc actor = elim actor.source_queue [
    | [] ↦ elim actor.translation_queue [
      | [] ↦ (actor, [])
      | command ∷ commands ↦
          let done =
            process_translation_command hash_order config now now_utc command actor.inner in
          (record actor { inner = done.0; translation_queue = commands }, done.1)
    ]
    | command ∷ commands ↦
        let done =
          process_source hash_order config now now_utc command actor.translation_queue
            actor.inner in
        (record { inner = done.0; source_queue = commands; translation_queue = done.1 }, done.2)
  ]

  unfoldable pub happen : Happening → Actor → Actor
  unfolding turn
  happen (source_sent command) actor =
      if ltb (length actor.source_queue) source_capacity
      then record actor { source_queue = actor.source_queue ++ command ∷ [] }
      else actor
  happen (translation_sent command) actor =
      if ltb (length actor.translation_queue) translation_capacity
      then record actor { translation_queue = actor.translation_queue ++ command ∷ [] }
      else actor
  happen (turned config now now_utc) actor = (turn config now now_utc actor).0

  unfoldable pub run_actor : List Happening → Actor → Actor
  unfolding happen
  run_actor [] actor = actor
  run_actor (h ∷ hs) actor = run_actor hs (happen h actor)
