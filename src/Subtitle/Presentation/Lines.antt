-- ===== src/Subtitle/Presentation/Lines.antt =====
-- crates/voicesub-subtitle/src/presentation.rs: which of the items of a payload are visible.
use stream_sub_translator.Common.{
  ℕ, ◌+◌, ◌≤◌, ◌<◌, min, ◌≡◌, refl, Bool, true, ◌&&◌, if◌then◌else◌, length, length-append, keep,
  Option, none, some, List, [], ◌∷◌, ◌++◌, inl, inr, Text, Text-discrete, same, lookup, Bool-cases,
  Option-cases, arith,
}
use stream_sub_translator.Events.{SubtitleLineItem}
use stream_sub_translator.Subtitle.Settings.{
  Config, OutputConfig, LineConfig, or_default, translation_slot_map,
}
use stream_sub_translator.Subtitle.Presentation.{
  SubtitleRecord, TranslationEntry, Items, output_of, is_translation, is_shown, source_item,
  translation_item, may_show, add_source, add_translation, add_line, add_lines, build_payload,
  resolved_display_order, source_code,
}

pub keep-append {ℓ} :
    {A : Type ℓ} (p : A → Bool) (xs : List A) (x : A)
    → keep p (xs ++ x ∷ []) ≡ (if p x then keep p xs ++ x ∷ [] else keep p xs)
keep-append p [] x = ground arith
keep-append p (y ∷ xs) x = ground (arith, keep-append p xs x)

-- The visible items are those of the items that are shown, and so many translations at most.
abbrev IsAgreed : OutputConfig → Items → Type 0
IsAgreed output (items, visible) =
    (visible ≡ keep is_shown items)
    × (length (keep is_translation visible) ≤ min (or_default 0 output.max_translation_languages) 5)

shown-translation :
    (output : OutputConfig) (visible : List SubtitleLineItem) (code : Text) (line : LineConfig)
    (found : Option TranslationEntry)
    → is_shown (translation_item (may_show output visible found) code line found)
      ≡ may_show output visible found
unfolding is_shown translation_item may_show
shown-translation output visible code line none = ground arith
shown-translation output visible code line (some t) = ground arith

append_shown :
    (items visible : List SubtitleLineItem) (item : SubtitleLineItem) (b : Bool)
    → is_shown item ≡ b
    → visible ≡ keep is_shown items
    → (if b then visible ++ item ∷ [] else visible) ≡ keep is_shown (items ++ item ∷ [])
append_shown items visible item b s e = ground (arith, keep-append is_shown items item)

pub length-keep_append_if :
    (visible : List SubtitleLineItem) (item : SubtitleLineItem) (b : Bool)
    → length (keep is_translation (if b then visible ++ item ∷ [] else visible))
      ≡ (if b && is_translation item then 1 else 0) + length (keep is_translation visible)
length-keep_append_if visible item b = ground (
  arith,
  keep-append is_translation visible item,
  length-append (keep is_translation visible) (item ∷ []),
)

may_show-room :
    (output : OutputConfig) (visible : List SubtitleLineItem) (found : Option TranslationEntry)
    → may_show output visible found ≡ true
    → length (keep is_translation visible) < min (or_default 0 output.max_translation_languages) 5
unfolding may_show
may_show-room output visible found h = ground arith

add_source-IsAgreed :
    (output : OutputConfig) (r : SubtitleRecord) (items visible : List SubtitleLineItem)
    → IsAgreed output (items, visible)
    → IsAgreed output (add_source output r (items, visible))
unfolding add_source
add_source-IsAgreed output r items visible (e, b) =
    let item = source_item (or_default true output.show_source) r in
    (
      append_shown items visible item (is_shown item) refl e,
      ground (arith, length-keep_append_if visible item (is_shown item)),
    )

add_translation-IsAgreed :
    (output : OutputConfig) (code : Text) (line : LineConfig) (found : Option TranslationEntry)
    (items visible : List SubtitleLineItem)
    → IsAgreed output (items, visible)
    → IsAgreed output (add_translation output code line found (items, visible))
unfolding add_translation
add_translation-IsAgreed output code line found items visible (e, b) =
    let can_show = may_show output visible found in
    let item = translation_item can_show code line found in
    (
      append_shown items visible item can_show (shown-translation output visible code line found) e,
      ground
          (arith, length-keep_append_if visible item can_show, may_show-room output visible found),
    )

add_line-IsAgreed :
    (output : OutputConfig) (slots : List (Text × LineConfig)) (r : SubtitleRecord) (code : Text)
    (items visible : List SubtitleLineItem)
    → IsAgreed output (items, visible)
    → IsAgreed output (add_line output slots r code (items, visible))
unfolding add_line
add_line-IsAgreed output slots r code items visible h = elim (Bool-cases (same code source_code)) [
  | inl e ↦ rw (add_line, e) (add_source-IsAgreed output r items visible h)
  | inr e ↦ elim (Option-cases (lookup Text-discrete code slots)) [
    | inl f ↦ rw (add_line, e, f) h
    | inr (line, f) ↦
        rw (add_line, e, f)
          (add_translation-IsAgreed output code line (lookup Text-discrete code r.translations)
            items visible h)
  ]
]

add_lines-IsAgreed :
    (output : OutputConfig) (slots : List (Text × LineConfig)) (r : SubtitleRecord)
    (order : List Text) (acc : Items)
    → IsAgreed output acc
    → IsAgreed output (add_lines output slots r order acc)
unfolding add_lines
add_lines-IsAgreed output slots r [] acc h = h
add_lines-IsAgreed output slots r (code ∷ order) (items, visible) h =
    add_lines-IsAgreed output slots r order (add_line output slots r code (items, visible))
      (add_line-IsAgreed output slots r code items visible h)

-- The visible items of a payload are, in order, those of its items that are marked visible and have
-- a text, and there are no more translations among them than `max_translation_languages`, and
-- never more than five.
pub build_payload-visible :
    (hash_order : List Text → List Text) (config : Config) (sequence : ℕ) (r : SubtitleRecord)
    → ((build_payload hash_order config sequence r).visible_items
        ≡ keep is_shown (build_payload hash_order config sequence r).items)
      × (length (keep is_translation (build_payload hash_order config sequence r).visible_items)
          ≤ (build_payload hash_order config sequence r).max_translation_languages)
      × ((build_payload hash_order config sequence r).max_translation_languages ≤ 5)
unfolding build_payload
build_payload-visible hash_order config sequence r =
    let output = output_of config in
    let h =
      add_lines-IsAgreed output (translation_slot_map config.translation) r
        (resolved_display_order hash_order config) ([], []) (refl, omega arith) in
    (h.0, h.1, omega arith)
