-- ===== src/Subtitle/Settings.antt =====
-- crates/voicesub-subtitle: the configuration, as the subtitle code reads it. The JSON document is not modelled:
-- a field is `none` where `get` and the conversion after it (`as_u64`, `as_bool`, `as_str`,
-- `as_array`, `as_object`) give `None`.
use stream_sub_translator.Common.{
  ℕ, ltb, Bool, true, false, not, ◌&&◌, ◌||◌, if◌then◌else◌, Option, none, some, List, [], ◌∷◌,
  Text, Text-discrete, trim, to_ascii_lowercase, is_empty, lookup, insert, max, any,
}

abbrev pub or_default {ℓ} : {A : Type ℓ} → A → Option A → A
or_default d none = d
or_default d (some a) = a

-- One entry of `translation.lines`.
pub record LineConfig : Type 0 where
  pub enabled : Option Bool
  pub slot_id : Option Text
  pub target_lang : Option Text
  pub label : Option Text

pub record TranslationConfig : Type 0 where
  pub enabled : Option Bool
  pub lines : Option (List (Option LineConfig))

pub record OutputConfig : Type 0 where
  pub show_source : Option Bool
  pub show_translations : Option Bool
  pub max_translation_languages : Option ℕ
  pub display_order : Option (List (Option Text))

-- `subtitle_lifecycle`, and the two values of `asr.realtime` that stand in for missing ones.
pub record LifecycleJson : Type 0 where
  pub completed_block_ttl_ms : Option ℕ
  pub completed_source_ttl_ms : Option ℕ
  pub completed_translation_ttl_ms : Option ℕ
  pub pause_to_finalize_ms : Option ℕ
  pub hard_max_phrase_ms : Option ℕ
  pub allow_early_replace_on_next_final : Option Bool
  pub sync_source_and_translation_expiry : Option Bool
  pub keep_completed_translation_during_active_partial : Option Bool
  pub finalization_hold_ms : Option ℕ
  pub max_segment_ms : Option ℕ

pub record Config : Type 0 where
  pub source_lang : Option Text
  pub translation : Option TranslationConfig
  pub subtitle_output : Option OutputConfig
  pub lifecycle : LifecycleJson
  pub preset : Option Text
  pub compact : Option Bool

-- What `lifecycle_config` returns.
pub record LifecycleConfig : Type 0 where
  pub completed_block_ttl_ms : ℕ
  pub completed_source_ttl_ms : ℕ
  pub completed_translation_ttl_ms : ℕ
  pub pause_to_finalize_ms : ℕ
  pub allow_early_replace_on_next_final : Bool
  pub sync_source_and_translation_expiry : Bool
  pub keep_completed_translation_during_active_partial : Bool
  pub hard_max_phrase_ms : ℕ

abbrev first_of_two : Option ℕ → Option ℕ → Option ℕ
first_of_two none b = b
first_of_two (some a) b = some a

unfoldable pub lifecycle_config : Config → LifecycleConfig
lifecycle_config config =
    let json = config.lifecycle in
    let completed = max (or_default 4500 json.completed_block_ttl_ms) 500 in
    let source = max (or_default completed json.completed_source_ttl_ms) 500 in
    let translation = max (or_default completed json.completed_translation_ttl_ms) 500 in
    record {
      completed_block_ttl_ms = max source translation;
      completed_source_ttl_ms = source;
      completed_translation_ttl_ms = translation;
      pause_to_finalize_ms =
          max (or_default 350 (first_of_two json.pause_to_finalize_ms json.finalization_hold_ms))
            120;
      allow_early_replace_on_next_final = or_default true json.allow_early_replace_on_next_final;
      sync_source_and_translation_expiry = or_default true json.sync_source_and_translation_expiry;
      keep_completed_translation_during_active_partial =
          or_default true json.keep_completed_translation_during_active_partial;
      hard_max_phrase_ms =
          max (or_default 5500 (first_of_two json.hard_max_phrase_ms json.max_segment_ms)) 1000;
    }

-- The lines of a configuration that may not be there.
lines_of : Option TranslationConfig → List (Option LineConfig)
lines_of none = []
lines_of (some t) = or_default [] t.lines

-- `presentation.rs`, `translation_slot_map`: a later line replaces an earlier one of its slot.
add_slot : LineConfig → List (Text × LineConfig) → List (Text × LineConfig)
add_slot line out =
    let slot_id = to_ascii_lowercase (trim (or_default [] line.slot_id)) in
    let target_lang = trim (or_default [] line.target_lang) in
    if not (or_default true line.enabled) || (is_empty slot_id || is_empty target_lang)
    then out
    else insert Text-discrete slot_id line out

slot_map_from : List (Option LineConfig) → List (Text × LineConfig) → List (Text × LineConfig)
unfolding add_slot
slot_map_from [] out = out
slot_map_from (none ∷ lines) out = slot_map_from lines out
slot_map_from (some line ∷ lines) out = slot_map_from lines (add_slot line out)

unfoldable pub translation_slot_map : Option TranslationConfig → List (Text × LineConfig)
unfolding slot_map_from lines_of
translation_slot_map t = slot_map_from (lines_of t) []

-- `legacy_language_to_slot_map`: here the first line of a language counts.
add_language : LineConfig → List (Text × Text) → List (Text × Text)
add_language line out =
    let slot_id = to_ascii_lowercase (trim (or_default [] line.slot_id)) in
    let target_lang = to_ascii_lowercase (trim (or_default [] line.target_lang)) in
    if not (or_default true line.enabled) || (is_empty target_lang || is_empty slot_id)
    then out
    else elim (lookup Text-discrete target_lang out) [
      | none ↦ insert Text-discrete target_lang slot_id out
      | some _ ↦ out
    ]

language_map_from : List (Option LineConfig) → List (Text × Text) → List (Text × Text)
unfolding add_language
language_map_from [] out = out
language_map_from (none ∷ lines) out = language_map_from lines out
language_map_from (some line ∷ lines) out = language_map_from lines (add_language line out)

unfoldable pub legacy_language_to_slot_map : Option TranslationConfig → List (Text × Text)
unfolding language_map_from lines_of
legacy_language_to_slot_map t = language_map_from (lines_of t) []

-- `lifecycle.rs`, `translation_required_for_display`.
text_is_blank : Option Text → Bool
text_is_blank none = true
text_is_blank (some s) = is_empty (trim s)

is_enabled_line : Option LineConfig → Bool
unfolding text_is_blank
is_enabled_line none = false
is_enabled_line (some line) =
    or_default true line.enabled
    && (not (text_is_blank line.slot_id) && not (text_is_blank line.target_lang))

required_by : Option TranslationConfig → Option OutputConfig → Bool
unfolding is_enabled_line
required_by none o = false
required_by (some t) none = false
required_by (some t) (some o) =
    or_default false t.enabled
    && (or_default true o.show_translations
        && (ltb 0 (or_default 0 o.max_translation_languages)
            && any is_enabled_line (or_default [] t.lines)))

unfoldable pub translation_required_for_display : Config → Bool
unfolding required_by
translation_required_for_display config = required_by config.translation config.subtitle_output
