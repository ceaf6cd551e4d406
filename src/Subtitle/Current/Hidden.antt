-- ===== src/Subtitle/Current/Hidden.antt =====
-- crates/voicesub-subtitle/src/presentation.rs, `build_presentation_payload`: the settings that hide the source.
use stream_sub_translator.Common.{
  ℕ, ◌≡◌, refl, sym, ap, subst, ◌∙◌, inl, inr, Bool, true, false, not, ◌&&◌, if◌then◌else◌, keep,
  any, Option, none, some, List, [], ◌∷◌, ◌++◌, map, Text, Text-discrete, same, lookup, is_empty,
  Option-cases, if_both, arith,
}
use stream_sub_translator.Events.{SubtitleLineItem, SubtitlePayloadEvent}
use stream_sub_translator.Subtitle.Settings.{
  Config, OutputConfig, LineConfig, or_default, translation_slot_map, lifecycle_config,
}
use stream_sub_translator.Subtitle.Presentation.{
  SubtitleRecord, TranslationEntry, Items, output_of, is_source, is_shown, source_item,
  translation_item, may_show, add_source, add_translation, add_line, add_lines, build_payload,
  resolved_display_order, source_code,
}
use stream_sub_translator.Subtitle.Lifecycle.{
  ActivePartial, SubtitleLifecycleCore, remap_item, current_completed_payload,
}
use stream_sub_translator.Subtitle.Current.{
  text_of, lang_of, uncounted, Built, Joined, append_item, find_translation, join_translation,
  join_line, join_lines, partial_item, empty_payload, partial_payload, joined_payload, body_of,
  should_suppress_source_partial_display, build_presentation_payload,
}
use stream_sub_translator.Subtitle.Current.Lines.{
  OnSome, build_presentation_payload-IsCoherent, current_completed-OnSome,
}

-- An item of the source that is shown.
abbrev is_shown_source : SubtitleLineItem → Bool
is_shown_source item = is_source item && is_shown item

-- None of them among the items.
abbrev pub HidesSource : List SubtitleLineItem → Type 0
HidesSource items = any is_shown_source items ≡ false

HidesSource-append :
    (items : List SubtitleLineItem) (item : SubtitleLineItem)
    → HidesSource items
    → is_shown_source item ≡ false
    → HidesSource (items ++ item ∷ [])
HidesSource-append [] item h i = ground (arith, i)
HidesSource-append (x ∷ items) item h i = ground (arith, HidesSource-append items item)

HidesSource-keep :
    (p : SubtitleLineItem → Bool) (items : List SubtitleLineItem)
    → HidesSource items
    → HidesSource (keep p items)
HidesSource-keep p [] h = h
HidesSource-keep p (item ∷ items) h = ground (arith, HidesSource-keep p items)

translation_item-source :
    (can_show : Bool) (code : Text) (line : LineConfig) (found : Option TranslationEntry)
    → is_shown_source (translation_item can_show code line found) ≡ false
unfolding translation_item
translation_item-source can_show code line none = refl
translation_item-source can_show code line (some t) = refl

add_line-HidesSource :
    (output : OutputConfig) (slots : List (Text × LineConfig)) (r : SubtitleRecord) (code : Text)
    (acc : Items)
    → or_default true output.show_source ≡ false
    → HidesSource acc.0
    → HidesSource (add_line output slots r code acc).0
unfolding add_line add_source add_translation source_item translation_item is_shown
add_line-HidesSource output slots r code (items, visible) s h =
    if_both (λ (acc : Items). HidesSource acc.0) (same code source_code)
      (add_source output r (items, visible)) _
      (HidesSource-append items (source_item (or_default true output.show_source) r) h
        (ground (arith, s)))
      (elim (Option-cases (lookup Text-discrete code slots)) [
        | inl e ↦ rw (e) h
        | inr (line, e) ↦ rw (e) (
            HidesSource-append items _ h (
              translation_item-source
                (may_show output visible (lookup Text-discrete code r.translations)) code line
                (lookup Text-discrete code r.translations)))
      ])

add_lines-HidesSource :
    (output : OutputConfig) (slots : List (Text × LineConfig)) (r : SubtitleRecord)
    (order : List Text) (acc : Items)
    → or_default true output.show_source ≡ false
    → HidesSource acc.0
    → HidesSource (add_lines output slots r order acc).0
unfolding add_lines
add_lines-HidesSource output slots r [] acc s h = h
add_lines-HidesSource output slots r (code ∷ order) acc s h =
    add_lines-HidesSource output slots r order (add_line output slots r code acc) s
      (add_line-HidesSource output slots r code acc s h)

remap-HidesSource :
    (f : SubtitleLineItem → Bool) (items : List SubtitleLineItem)
    → ((item : SubtitleLineItem) → f item ≡ true → is_shown item ≡ true)
    → HidesSource items
    → HidesSource (map (remap_item f) items)
unfolding remap_item is_shown
remap-HidesSource f [] h e = e
remap-HidesSource f (item ∷ items) h e = ground (arith, h item, remap-HidesSource f items h)

find-is_translation :
    (code : Text) (items : List SubtitleLineItem) (item : SubtitleLineItem)
    → find_translation code items ≡ some item
    → is_source item ≡ false
unfolding find_translation
find-is_translation code [] item e = ground arith
find-is_translation code (x ∷ items) item e = ground (arith, find-is_translation code items item)

join_line-HidesSource :
    (preserve : Bool) (output : OutputConfig) (source' : SubtitleLineItem)
    (completed : List SubtitleLineItem) (code : Text) (joined : Joined)
    → is_shown source' ≡ false
    → HidesSource joined.0
    → HidesSource (join_line preserve output source' completed code joined).0
unfolding join_line join_translation
join_line-HidesSource preserve output source' completed code (items, visible, stale) s h =
    if_both (λ (acc : Joined). HidesSource acc.0) (same code source_code)
      (append_item source' 0 (items, visible, stale)) _
      (HidesSource-append items source' h (ground (arith, s)))
      (elim (Option-cases (find_translation code completed)) [
        | inl e ↦ rw (e) h
        | inr (item, e) ↦ rw (e) (
            HidesSource-append items _ h
              (ground (arith, find-is_translation code completed item e)))
      ])

join_lines-HidesSource :
    (preserve : Bool) (output : OutputConfig) (source' : SubtitleLineItem)
    (completed : List SubtitleLineItem) (order : List Text) (joined : Joined)
    → is_shown source' ≡ false
    → HidesSource joined.0
    → HidesSource (join_lines preserve output source' completed order joined).0
unfolding join_lines
join_lines-HidesSource preserve output source' completed [] joined s h = h
join_lines-HidesSource preserve output source' completed (code ∷ order) joined s h =
    join_lines-HidesSource preserve output source' completed order
      (join_line preserve output source' completed code joined) s
      (join_line-HidesSource preserve output source' completed code joined s h)

-- A partial's line is not shown where the source is hidden.
partial_item-hidden :
    (lang : Text) (p : Option ActivePartial) → is_shown (partial_item false lang p) ≡ false
unfolding partial_item is_shown
partial_item-hidden lang p = refl

module _ (hash_order : List Text → List Text) (config : Config) where
  build_payload-HidesSource :
      or_default true (output_of config).show_source ≡ false
      → (sequence : ℕ) (r : SubtitleRecord)
      → HidesSource (build_payload hash_order config sequence r).items
  unfolding build_payload
  build_payload-HidesSource s sequence r =
      add_lines-HidesSource (output_of config) (translation_slot_map config.translation) r
        (resolved_display_order hash_order config) ([], []) s refl

  partial_payload-HidesSource :
      or_default true (output_of config).show_source ≡ false
      → (p : Option ActivePartial) → HidesSource (partial_payload hash_order config p).items
  unfolding partial_payload partial_item is_shown
  partial_payload-HidesSource s p = ground (arith, s)

  joined_payload-HidesSource :
      or_default true (output_of config).show_source ≡ false
      → (p : Option ActivePartial) (completed : SubtitlePayloadEvent)
      → HidesSource (joined_payload hash_order config p completed).payload.items
  unfolding joined_payload
  joined_payload-HidesSource s p completed =
      let lang = or_default completed.source_lang (lang_of p) in
      join_lines-HidesSource
        (lifecycle_config config).keep_completed_translation_during_active_partial
        (output_of config) (partial_item (or_default true (output_of config).show_source) lang p)
        completed.items (resolved_display_order hash_order config) ([], [], 0)
        (ap (λ b. is_shown (partial_item b lang p)) s ∙ partial_item-hidden lang p) refl

  body_of-HidesSource :
      or_default true (output_of config).show_source ≡ false
      → (p : Option ActivePartial) (beside : Option SubtitlePayloadEvent)
      → OnSome (λ q. HidesSource q.items) beside
      → HidesSource (body_of hash_order config p beside).payload.items
  unfolding body_of empty_payload
  body_of-HidesSource s p none h =
      if_both (λ (q : SubtitlePayloadEvent). HidesSource q.items) (is_empty (text_of p))
        (empty_payload hash_order config) (partial_payload hash_order config p) refl
        (partial_payload-HidesSource s p)
  body_of-HidesSource s p (some completed) h =
      if_both (λ (b : Built). HidesSource b.payload.items) (is_empty (text_of p))
        (uncounted completed) (joined_payload hash_order config p completed) h
        (joined_payload-HidesSource s p completed)

if_pos_Bool : (b : Bool) (x y : Text) → b ≡ true → (if b then x else y) ≡ x
if_pos_Bool b x y h = ground arith

not-true : (b : Bool) → not b ≡ true → b ≡ false
not-true b h = ground arith

-- Where `show_source` is off, no visible item of the payload is a line of the source, in any
-- state, and the field `active_partial_text` is empty. (The hidden items and `source_text` may
-- have the text of the source.)
pub source_hidden :
    (hash_order : List Text → List Text) (config : Config) (now : ℕ) (core : SubtitleLifecycleCore)
    → should_suppress_source_partial_display config ≡ true
    → HidesSource (build_presentation_payload hash_order config now core).payload.visible_items
      × ((build_presentation_payload hash_order config now core).payload.active_partial_text ≡ [])
unfolding build_presentation_payload should_suppress_source_partial_display
source_hidden hash_order config now core h =
    let s = not-true (or_default true (output_of config).show_source) h in
    let hide = not (is_empty (text_of core.active_partial)) in
    let beside = current_completed_payload hash_order config now hide core in
    let payload = (build_presentation_payload hash_order config now core).payload in
    (
      subst HidesSource (sym (build_presentation_payload-IsCoherent hash_order config now core).0) (
          HidesSource-keep is_shown payload.items (
            body_of-HidesSource hash_order config s core.active_partial beside (
              current_completed-OnSome hash_order config now (λ q. HidesSource q.items)
                (λ f q m e. remap-HidesSource f q.items m e)
                (build_payload-HidesSource hash_order config s) hide core))),
      if_pos_Bool (should_suppress_source_partial_display config) [] (text_of core.active_partial)
          h,
    )
