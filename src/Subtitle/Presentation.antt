-- ===== src/Subtitle/Presentation.antt =====
-- crates/voicesub-subtitle/src/presentation.rs: the order of the lines, and the payload of a record. A
-- `HashMap` gives its keys in an order of its own: `hash_order` is that order.
pub mod Order
pub mod Lines
use stream_sub_translator.Common.{
  ℕ, ◌<◌, ◌-◌, ltb, length, keep, any, min, Bool, true, false, not, ◌&&◌, ◌||◌, if◌then◌else◌,
  Option, none, some, List, [], ◌∷◌, ◌++◌, map, Text, Text-discrete, codes, same, is_empty, trim,
  to_ascii_lowercase, join, lookup, keys,
}
use stream_sub_translator.Events.{
  LineKind, source, translation, SubtitleLineItem, idle, SubtitlePayloadEvent,
}
use stream_sub_translator.Subtitle.Settings.{
  Config, OutputConfig, LineConfig, or_default, translation_slot_map, legacy_language_to_slot_map,
}

-- One translation of a record, and the record of a sequence.
pub record TranslationEntry : Type 0 where
  pub slot_id : Option Text
  pub target_lang : Text
  pub label : Option Text
  pub text : Text
  pub provider : Text
  pub success : Bool
  pub error : Option Text

pub record SubtitleRecord : Type 0 where
  pub sequence : ℕ
  pub source_text : Text
  pub source_lang : Text
  pub translations : List (Text × TranslationEntry)
  pub provider : Option Text
  pub translation_received : Bool
  pub duration_ms : Option ℕ
  pub finalized_at_utc : Option ℕ
  pub finalized_at_monotonic : Option ℕ

-- The output settings of a configuration that may not be there.
unfoldable pub output_of : Config → OutputConfig
output_of config =
    or_default
      (record {
        show_source = none;
        show_translations = none;
        max_translation_languages = none;
        display_order = none;
      })
      config.subtitle_output

-- `Vec::contains`.
unfoldable pub has : Text → List Text → Bool
unfolding same
has t ts = any (same t) ts

-- `push`, unless it is there.
unfoldable pub push_new : Text → List Text → List Text
unfolding has
push_new t ts = if has t ts then ts else ts ++ t ∷ []

abbrev pub source_code : Text
source_code = codes "source"

unfoldable pub push_mapped : Option Text → List Text → List Text
unfolding push_new
push_mapped none normalized = normalized
push_mapped (some mapped) normalized = push_new mapped normalized

-- One entry of the configured order.
unfoldable pub normalize_one : List Text → List (Text × Text) → Option Text → List Text → List Text
unfolding push_new push_mapped has same
normalize_one enabled_slots language_to_slot item normalized =
    let value = to_ascii_lowercase (trim (or_default [] item)) in
    if same value source_code
    then push_new source_code normalized
    else if has value enabled_slots && not (has value normalized)
    then normalized ++ value ∷ []
    else push_mapped (lookup Text-discrete value language_to_slot) normalized

unfoldable pub normalize_all :
    List Text → List (Text × Text) → List (Option Text) → List Text → List Text
unfolding normalize_one
normalize_all slots languages [] normalized = normalized
normalize_all slots languages (item ∷ raw) normalized =
    normalize_all slots languages raw (normalize_one slots languages item normalized)

unfoldable pub push_all : List Text → List Text → List Text
unfolding push_new
push_all [] normalized = normalized
push_all (slot ∷ slots) normalized = push_all slots (push_new slot normalized)

unfoldable pub resolved_display_order : (List Text → List Text) → Config → List Text
unfolding normalize_all push_all push_new translation_slot_map legacy_language_to_slot_map output_of
resolved_display_order hash_order config =
    let slots = hash_order (keys (translation_slot_map config.translation)) in
    let languages = legacy_language_to_slot_map config.translation in
    let raw = or_default (some source_code ∷ map some slots) (output_of config).display_order in
    push_all slots (push_new source_code (normalize_all slots languages raw []))

abbrev upper_code : ℕ → ℕ
upper_code c = if ltb 96 c && ltb c 123 then c - 32 else c

unfoldable pub to_ascii_uppercase : Text → Text
to_ascii_uppercase = map upper_code

abbrev pub is_source : SubtitleLineItem → Bool
is_source item = elim item.kind [ source ↦ true | translation ↦ false ]

abbrev pub is_translation : SubtitleLineItem → Bool
is_translation item = elim item.kind [ source ↦ false | translation ↦ true ]

-- `item.visible && !item.text.is_empty()`.
unfoldable pub is_shown : SubtitleLineItem → Bool
is_shown item = item.visible && not (is_empty item.text)

unfoldable pub source_item : Bool → SubtitleRecord → SubtitleLineItem
unfolding to_ascii_uppercase
source_item show_source record' = record {
  kind = source;
  lang = record'.source_lang;
  label = to_ascii_uppercase record'.source_lang;
  text = record'.source_text;
  style_slot = some source_code;
  slot_id = none;
  target_lang = none;
  provider = none;
  visible = show_source;
  success = true;
  error = none;
}

-- The item of a slot: of its translation if there is one, and of its settings otherwise.
unfoldable pub translation_item :
    Bool → Text → LineConfig → Option TranslationEntry → SubtitleLineItem
unfolding to_ascii_uppercase
translation_item can_show code line none =
    let lang = or_default code line.target_lang in
    record {
      kind = translation;
      lang = lang;
      label = or_default (to_ascii_uppercase lang) line.label;
      text = [];
      style_slot = if can_show then some code else none;
      slot_id = some code;
      target_lang = some lang;
      provider = none;
      visible = can_show;
      success = false;
      error = none;
    }
translation_item can_show code line (some t) = record {
  kind = translation;
  lang = t.target_lang;
  label = or_default (or_default (to_ascii_uppercase t.target_lang) line.label) t.label;
  text = t.text;
  style_slot = if can_show then some code else none;
  slot_id = some code;
  target_lang = some t.target_lang;
  provider = some t.provider;
  visible = can_show;
  success = t.success;
  error = t.error;
}

is_ready : Option TranslationEntry → Bool
is_ready none = false
is_ready (some t) = t.success && not (is_empty t.text)

-- What the loop over the display order builds: `items` and `visible_items`.
abbrev pub Items : Type 0
Items = List SubtitleLineItem × List SubtitleLineItem

unfoldable pub may_show : OutputConfig → List SubtitleLineItem → Option TranslationEntry → Bool
unfolding is_ready
may_show output visible found =
    or_default true output.show_translations
    && (ltb (length (keep is_translation visible))
          (min (or_default 0 output.max_translation_languages) 5)
        && is_ready found)

unfoldable pub add_source : OutputConfig → SubtitleRecord → Items → Items
unfolding source_item is_shown
add_source output record' (items, visible) =
    let item = source_item (or_default true output.show_source) record' in
    (items ++ item ∷ [], if is_shown item then visible ++ item ∷ [] else visible)

unfoldable pub add_translation :
    OutputConfig → Text → LineConfig → Option TranslationEntry → Items → Items
unfolding translation_item may_show
add_translation output code line found (items, visible) =
    let can_show = may_show output visible found in
    let item = translation_item can_show code line found in
    (items ++ item ∷ [], if can_show then visible ++ item ∷ [] else visible)

unfoldable pub add_line :
    OutputConfig → List (Text × LineConfig) → SubtitleRecord → Text → Items → Items
unfolding add_source add_translation same
add_line output slots record' code acc =
    if same code source_code
    then add_source output record' acc
    else elim (lookup Text-discrete code slots) [
      | none ↦ acc
      | some line ↦
          add_translation output code line (lookup Text-discrete code record'.translations) acc
    ]

unfoldable pub add_lines :
    OutputConfig → List (Text × LineConfig) → SubtitleRecord → List Text → Items → Items
unfolding add_line
add_lines output slots record' [] acc = acc
add_lines output slots record' (code ∷ order) acc =
    add_lines output slots record' order (add_line output slots record' code acc)

-- `line1` and `line2`.
unfoldable pub first_line : List SubtitleLineItem → Text
first_line [] = []
first_line (item ∷ items) = item.text

unfoldable pub other_lines : List SubtitleLineItem → Text
unfolding join
other_lines [] = []
other_lines (item ∷ items) =
    join (codes "\n") (map (λ (other : SubtitleLineItem). other.text) items)

unfoldable pub build_payload :
    (List Text → List Text) → Config → ℕ → SubtitleRecord → SubtitlePayloadEvent
unfolding resolved_display_order output_of translation_slot_map add_lines first_line other_lines
build_payload hash_order config sequence record' =
    let output = output_of config in
    let order = resolved_display_order hash_order config in
    let built = add_lines output (translation_slot_map config.translation) record' order ([], []) in
    record {
      sequence = sequence;
      source_lang = record'.source_lang;
      source_text = record'.source_text;
      provider = record'.provider;
      preset = or_default (codes "single") config.preset;
      compact = or_default false config.compact;
      display_order = order;
      show_source = or_default true output.show_source;
      show_translations = or_default true output.show_translations;
      max_translation_languages = min (or_default 0 output.max_translation_languages) 5;
      items = built.0;
      visible_items = built.1;
      lifecycle_state = idle;
      completed_block_visible = false;
      completed_expires_at_utc = none;
      active_partial_text = [];
      active_partial_sequence = none;
      active_partial_source_lang = none;
      line1 = first_line built.1;
      line2 = other_lines built.1;
      created_at_ms = none;
    }
