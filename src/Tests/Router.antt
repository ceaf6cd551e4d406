-- ===== src/Tests/Router.antt =====
-- Runs of the subtitle router and of the payload that it publishes, and their theorems at concrete
-- inputs.
use stream_sub_translator.Common.{
  ◌≡◌, refl, true, false, none, some, List, [], ◌∷◌, codes, to_ascii_lowercase, trim, insert,
  lookup, remove, arith,
}
use stream_sub_translator.Events.{completed_with_partial}
use stream_sub_translator.Subtitle.Settings.{Config}
use stream_sub_translator.Subtitle.Lifecycle.{SubtitleLifecycleCore}
use stream_sub_translator.Subtitle.Lifecycle.Promotion.{initial_core}
use stream_sub_translator.Subtitle.Lifecycle.Sessions.{Call, call_one}
use stream_sub_translator.Subtitle.Current.{
  build_presentation_payload, should_suppress_source_partial_display,
}
use stream_sub_translator.Subtitle.Current.Lines.{IsCoherent, build_presentation_payload-IsCoherent}
use stream_sub_translator.Subtitle.Current.Hidden.{HidesSource, source_hidden}
use stream_sub_translator.Subtitle.Router.{
  initial_inner, SourceCommand, transcript, flush_publish, ingest_browser_text, TranslationCommand,
  translation, process_source,
}
use stream_sub_translator.Subtitle.Router.Publish.{IsPublished, process_source-IsPublished}
use stream_sub_translator.Subtitle.Router.Actor.{
  Actor, Happening, source_sent, translation_sent, turned, run_actor,
}
use stream_sub_translator.Subtitle.Router.Tracked.{IsSound, run_actor-IsSound}
use stream_sub_translator.Tests.Subtitle.{same_order, config, hello, answer}

-- A configuration that does not show the source.
abbrev hiding : Config
hiding = record config {
  subtitle_output = some (record {
    show_source = some false;
    show_translations = none;
    max_translation_languages = some 2;
    display_order = none;
  });
}

-- A final, its translation, and a partial that is being spoken.
abbrev speaking : SubtitleLifecycleCore
unfolding call_one
speaking =
    record (call_one same_order config 20 2 (Call.translated answer)
      (call_one same_order config 10 1 (Call.transcript (hello 7)) initial_core)) {
        active_partial = some (record {
          sequence = 8;
          text = codes "now";
          source_lang = codes "en";
          provider = none;
        });
      }

speaking_run :
    (build_presentation_payload same_order config 30 speaking).payload.lifecycle_state
    ≡ completed_with_partial
unfolding build_presentation_payload call_one to_ascii_lowercase trim insert lookup remove
speaking_run = refl

speaking_lines :
    ((build_presentation_payload same_order config 30 speaking).payload.line1 ≡ codes "hallo")
    × ((build_presentation_payload same_order config 30 speaking).payload.line2 ≡ codes "now")
unfolding build_presentation_payload call_one to_ascii_lowercase trim insert lookup remove
speaking_lines = (refl, refl)

build_presentation_payload-IsCoherent_example :
    IsCoherent (build_presentation_payload same_order config 30 speaking).payload
build_presentation_payload-IsCoherent_example =
    build_presentation_payload-IsCoherent same_order config 30 speaking

source_hidden_example :
    HidesSource (build_presentation_payload same_order hiding 30 speaking).payload.visible_items
    × ((build_presentation_payload same_order hiding 30 speaking).payload.active_partial_text ≡ [])
unfolding should_suppress_source_partial_display
source_hidden_example = source_hidden same_order hiding 30 speaking refl

abbrev waiting_translations : List TranslationCommand
waiting_translations = translation answer true ∷ []

process_source-IsPublished_example :
    IsPublished same_order config 20 2 initial_inner
      (process_source same_order config 20 2 flush_publish waiting_translations initial_inner).0
process_source-IsPublished_example =
    process_source-IsPublished same_order config 20 2 flush_publish waiting_translations
      initial_inner (refl, refl)

abbrev happenings : List Happening
happenings =
    source_sent (transcript (hello 7) true)
    ∷ translation_sent (translation answer true)
    ∷ turned config 10 1
    ∷ source_sent flush_publish
    ∷ turned config 20 2
    ∷ []

abbrev empty_actor : Actor
empty_actor = record { inner = initial_inner; source_queue = []; translation_queue = [] }

run_actor-IsSound_example : IsSound (run_actor same_order happenings empty_actor)
run_actor-IsSound_example =
    run_actor-IsSound same_order happenings empty_actor
      ((refl, refl, refl), (refl, refl), omega arith, omega arith)

abbrev two_commands : List SourceCommand
two_commands = ingest_browser_text (codes "hi") false none none ∷ transcript (hello 7) true ∷ []
