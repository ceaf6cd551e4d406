-- ===== src/Tests/Ws.antt =====
-- Runs of the sequencer of events and of the filter of a chat, and theorems at concrete inputs.
use stream_sub_translator.Common.{
  ℕ, ◌≡◌, refl, true, some, List, [], ◌∷◌, Text, Text-discrete, codes, trim, to_ascii_lowercase,
  same, lookup, insert, arith,
}
use stream_sub_translator.Ws.Sequencer.{
  new_sequencer, object, other_value, Call, enriched, reset, serve_calls, AreNumbered,
  serve_calls-AreNumbered,
}
use stream_sub_translator.Twitch.Filter.{
  TwitchTtsSettings, filter_skip_reason, should_speak_message, resolve_spoken_nick,
}

data Json : Type 0 where
  text : Text → Json
  number : ℕ → Json

-- A payload that brings its type and a number of its own, a value that is no object, a stop, and an empty one.
abbrev calls : List (Call text number)
calls =
    enriched (codes "status") 7
      (object ((codes "event_type", text (codes "own")) ∷ (codes "event_sequence", number 9) ∷ []))
    ∷ enriched (codes "status") 8 (other_value (number 5))
    ∷ reset
    ∷ enriched (codes "text") 9 (object [])
    ∷ []

calls_run :
    serve_calls text number calls new_sequencer
    ≡ object (
        (codes "event_type", text (codes "own"))
        ∷ (codes "event_sequence", number 1)
        ∷ (codes "created_at_ms", number 7)
        ∷ [])
      ∷ other_value (number 5)
      ∷ object (
          (codes "event_type", text (codes "text"))
          ∷ (codes "created_at_ms", number 9)
          ∷ (codes "event_sequence", number 3)
          ∷ [])
      ∷ []
unfolding serve_calls insert lookup Text-discrete
calls_run = refl

serve_calls-AreNumbered_example :
    AreNumbered text number 0 (serve_calls text number calls new_sequencer)
serve_calls-AreNumbered_example =
    serve_calls-AreNumbered text number calls new_sequencer (omega arith)

abbrev settings : TwitchTtsSettings
settings = record {
  speak_chat = true;
  block_commands = true;
  ignore_users = codes " Bot " ∷ [];
  nick_replacements = record { replaced = codes " Alice "; to = codes "Al" } ∷ [];
}

filter_run :
    (filter_skip_reason settings (codes "bOT") (codes "hi") ≡ some (codes "ignore_list"))
    × (filter_skip_reason settings (codes "ann") (codes " !play") ≡ some (codes "block_commands"))
    × (should_speak_message settings (codes "ann") (codes "hi") ≡ true)
unfolding filter_skip_reason should_speak_message same to_ascii_lowercase trim
filter_run = (refl, refl, refl)

nick_run :
    (resolve_spoken_nick settings (codes "alice1") (codes "Alice") ≡ codes "Al")
    × (resolve_spoken_nick settings (codes "ann") (codes " ") ≡ codes "ann")
unfolding resolve_spoken_nick lookup insert trim Text-discrete
nick_run = (refl, refl)
