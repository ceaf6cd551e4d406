-- ===== src/Subtitle/Current.antt =====
-- crates/voicesub-subtitle/src/presentation.rs, `build_presentation_payload`: the payload that the overlay
-- shows now, of the completed block and of the partial that is being spoken.
pub mod Lines
pub mod State
pub mod Hidden
use stream_sub_translator.Common.{
  ℕ, ◌+◌, ltb, length, keep, min, Bool, true, false, not, ◌&&◌, ◌||◌, if◌then◌else◌, Option, none,
  some, List, [], ◌∷◌, ◌++◌, Text, codes, same, is_empty, to_ascii_lowercase,
}
use stream_sub_translator.Events.{
  source, SubtitleLineItem, LifecycleState, idle, partial_only, completed_only,
  completed_with_partial, SubtitlePayloadEvent,
}
use stream_sub_translator.Subtitle.Settings.{Config, OutputConfig, lifecycle_config, or_default}
use stream_sub_translator.Subtitle.Presentation.{
  output_of, resolved_display_order, source_code, to_ascii_uppercase, is_translation, is_shown,
  first_line, other_lines,
}
use stream_sub_translator.Subtitle.Lifecycle.{
  ActivePartial, SubtitleLifecycleCore, is_there, current_completed_payload,
}

-- The fields of the partial, each absent with it.
abbrev pub text_of : Option ActivePartial → Text
text_of none = []
text_of (some p) = p.text

abbrev sequence_of : Option ActivePartial → Option ℕ
sequence_of none = none
sequence_of (some p) = some p.sequence

abbrev pub lang_of : Option ActivePartial → Option Text
lang_of none = none
lang_of (some p) = some p.source_lang

abbrev pub provider_of : Option ActivePartial → Option Text
provider_of none = none
provider_of (some p) = p.provider

unfoldable pub should_suppress_source_partial_display : Config → Bool
unfolding output_of
should_suppress_source_partial_display config = not (or_default true (output_of config).show_source)

-- `eq_ignore_ascii_case`.
unfoldable pub eq_ignore_ascii_case : Text → Text → Bool
unfolding same to_ascii_lowercase
eq_ignore_ascii_case s t = same (to_ascii_lowercase s) (to_ascii_lowercase t)

-- The state, of whether there is a partial text, a completed block, and one beside the partial.
abbrev pub state_of : Bool → Bool → Bool → LifecycleState
state_of has_partial completed beside =
    if has_partial && beside
    then completed_with_partial
    else if has_partial
    then partial_only
    else if completed
    then completed_only
    else idle

-- The source line of a partial.
unfoldable pub partial_item : Bool → Text → Option ActivePartial → SubtitleLineItem
unfolding to_ascii_uppercase
partial_item show_source lang active_partial =
    let text = text_of active_partial in
    let visible = show_source && not (is_empty text) in
    record {
      kind = source;
      lang = lang;
      label = to_ascii_uppercase lang;
      text = text;
      style_slot = if visible then some source_code else none;
      slot_id = none;
      target_lang = none;
      provider = provider_of active_partial;
      visible = visible;
      success = true;
      error = none;
    }

-- `payload.items.iter().find`.
unfoldable pub find_translation : Text → List SubtitleLineItem → Option SubtitleLineItem
unfolding eq_ignore_ascii_case
find_translation code [] = none
find_translation code (item ∷ items) =
    let rest = find_translation code items in
    if is_translation item && eq_ignore_ascii_case (or_default item.lang item.slot_id) code
    then some item
    else rest

-- What the loop over the display order builds: `items`, `visible_items`, and how often it calls
-- `stale_translation_suppressed`.
abbrev pub Joined : Type 0
Joined = List SubtitleLineItem × List SubtitleLineItem × ℕ

abbrev pub append_item : SubtitleLineItem → ℕ → Joined → Joined
append_item item suppressed (items, visible, stale) = (
  items ++ item ∷ [],
  if is_shown item then visible ++ item ∷ [] else visible,
  stale + suppressed,
)

unfoldable pub can_keep : Bool → OutputConfig → List SubtitleLineItem → SubtitleLineItem → Bool
can_keep preserve output visible item =
    preserve
    && (or_default true output.show_translations
        && (ltb (length (keep is_translation visible))
              (min (or_default 0 output.max_translation_languages) 5)
            && (item.success && not (is_empty item.text))))

unfoldable pub join_translation :
    Bool → OutputConfig → Text → Option SubtitleLineItem → Joined → Joined
unfolding can_keep is_shown
join_translation preserve output code none joined = joined
join_translation preserve output code (some item) joined =
    let can_show = can_keep preserve output joined.1 item in
    append_item
      (record item { visible = can_show; style_slot = if can_show then some code else none })
      (if not preserve && not (is_empty item.text) then 1 else 0) joined

unfoldable pub join_line :
    Bool → OutputConfig → SubtitleLineItem → List SubtitleLineItem → Text → Joined → Joined
unfolding same is_shown find_translation join_translation
join_line preserve output source_item completed code joined =
    if same code source_code
    then append_item source_item 0 joined
    else join_translation preserve output code (find_translation code completed) joined

unfoldable pub join_lines :
    Bool → OutputConfig → SubtitleLineItem → List SubtitleLineItem → List Text → Joined → Joined
unfolding join_line
join_lines preserve output source_item completed [] joined = joined
join_lines preserve output source_item completed (code ∷ order) joined =
    join_lines preserve output source_item completed order
      (join_line preserve output source_item completed code joined)

-- A payload, and the amounts that the two counters are given while it is built.
pub record Built : Type 0 where
  pub payload : SubtitlePayloadEvent
  pub stale_translation_suppressed : ℕ
  pub payload_mismatch_count : ℕ

-- `SubtitlePayloadEvent::default`, with the settings.
unfoldable pub empty_payload : (List Text → List Text) → Config → SubtitlePayloadEvent
unfolding resolved_display_order output_of
empty_payload hash_order config =
    let output = output_of config in
    record {
      sequence = 0;
      source_lang = codes "auto";
      source_text = [];
      provider = none;
      preset = or_default (codes "single") config.preset;
      compact = or_default false config.compact;
      display_order = resolved_display_order hash_order config;
      show_source = or_default true output.show_source;
      show_translations = or_default true output.show_translations;
      max_translation_languages = min (or_default 0 output.max_translation_languages) 5;
      items = [];
      visible_items = [];
      lifecycle_state = idle;
      completed_block_visible = false;
      completed_expires_at_utc = none;
      active_partial_text = [];
      active_partial_sequence = none;
      active_partial_source_lang = none;
      line1 = [];
      line2 = [];
      created_at_ms = none;
    }

-- The payload of a partial with no completed block beside it.
unfoldable pub partial_payload :
    (List Text → List Text) → Config → Option ActivePartial → SubtitlePayloadEvent
unfolding empty_payload partial_item is_shown first_line output_of
partial_payload hash_order config active_partial =
    let lang = or_default (or_default (codes "auto") config.source_lang) (lang_of active_partial) in
    let show_source = or_default true (output_of config).show_source in
    let item = partial_item show_source lang active_partial in
    let visible = if is_shown item then item ∷ [] else [] in
    record (empty_payload hash_order config) {
      sequence = or_default 0 (sequence_of active_partial);
      source_lang = lang;
      source_text = text_of active_partial;
      provider = item.provider;
      items = item ∷ [];
      visible_items = visible;
      line1 = first_line visible;
      line2 = [];
    }

-- The payload of a partial, with the translations of the completed block beside it.
unfoldable pub joined_payload :
    (List Text → List Text) → Config → Option ActivePartial → SubtitlePayloadEvent → Built
unfolding join_lines partial_item first_line other_lines lifecycle_config output_of
    resolved_display_order
joined_payload hash_order config active_partial completed =
    let output = output_of config in
    let order = resolved_display_order hash_order config in
    let preserve = (lifecycle_config config).keep_completed_translation_during_active_partial in
    let show_source = or_default true output.show_source in
    let lang = or_default completed.source_lang (lang_of active_partial) in
    let item = partial_item show_source lang active_partial in
    let joined = join_lines preserve output item completed.items order ([], [], 0) in
    record {
      payload = record completed {
        sequence = or_default completed.sequence (sequence_of active_partial);
        source_text = text_of active_partial;
        source_lang = lang;
        provider = item.provider;
        display_order = order;
        show_source = show_source;
        show_translations = or_default true output.show_translations;
        max_translation_languages = min (or_default 0 output.max_translation_languages) 5;
        items = joined.0;
        visible_items = joined.1;
        line1 = first_line joined.1;
        line2 = other_lines joined.1;
      };
      stale_translation_suppressed = joined.2;
      payload_mismatch_count = elim completed.visible_items [
        | [] ↦ 0
        | _ ↦ if preserve then 0 else 1
      ];
    }

abbrev pub uncounted : SubtitlePayloadEvent → Built
uncounted payload = record {
  payload = payload;
  stale_translation_suppressed = 0;
  payload_mismatch_count = 0;
}

-- The body of the payload, of the completed block and of the one that may stand beside a partial.
unfoldable pub body_of :
    (List Text → List Text) → Config → Option ActivePartial → Option SubtitlePayloadEvent → Built
unfolding partial_payload joined_payload empty_payload
body_of hash_order config active_partial none = uncounted (
    if is_empty (text_of active_partial)
    then empty_payload hash_order config
    else partial_payload hash_order config active_partial)
body_of hash_order config active_partial (some completed) =
    if is_empty (text_of active_partial)
    then uncounted completed
    else joined_payload hash_order config active_partial completed

-- `map(|p| !p.visible_items.is_empty()).unwrap_or(false)`.
abbrev pub has_visible_items : Option SubtitlePayloadEvent → Bool
has_visible_items none = false
has_visible_items (some payload) = elim payload.visible_items [ [] ↦ false | _ ↦ true ]

module _ (hash_order : List Text → List Text) (config : Config) (now : ℕ) where
  unfoldable pub build_presentation_payload : SubtitleLifecycleCore → Built
  unfolding current_completed_payload should_suppress_source_partial_display body_of
  build_presentation_payload core =
      let text = text_of core.active_partial in
      let completed = current_completed_payload hash_order config now false core in
      let beside = current_completed_payload hash_order config now (not (is_empty text)) core in
      let body = body_of hash_order config core.active_partial beside in
      record body {
        payload = record body.payload {
          lifecycle_state = state_of (not (is_empty text)) (is_there completed) (is_there beside);
          completed_block_visible =
              (is_empty text || is_there beside) && has_visible_items completed;
          completed_expires_at_utc = core.completed_expires_at_utc;
          active_partial_text = if should_suppress_source_partial_display config then [] else text;
          active_partial_sequence = sequence_of core.active_partial;
          active_partial_source_lang = lang_of core.active_partial;
        };
      }
