-- ===== src/Subtitle/Current/Lines.antt =====
-- crates/voicesub-subtitle/src/presentation.rs, `build_presentation_payload`: the items and the lines of the
-- payload.
use stream_sub_translator.Common.{
  ℕ, ◌+◌, ◌≤◌, min, ◌≡◌, refl, ap, Bool, true, false, not, codes, ◌&&◌, if◌then◌else◌, length, keep,
  Option, none, some, List, [], ◌∷◌, map, inl, inr, Text, same, is_empty, if_both, Option-cases,
  arith,
}
use stream_sub_translator.Events.{SubtitleLineItem, SubtitlePayloadEvent}
use stream_sub_translator.Subtitle.Settings.{Config, OutputConfig, or_default, lifecycle_config}
use stream_sub_translator.Subtitle.Presentation.{
  SubtitleRecord, output_of, is_translation, is_shown, first_line, other_lines, build_payload,
  source_code, resolved_display_order,
}
use stream_sub_translator.Subtitle.Presentation.Lines.{
  keep-append, length-keep_append_if, build_payload-visible,
}
use stream_sub_translator.Subtitle.Lifecycle.{
  ActivePartial, SubtitleLifecycleCore, record_of, remap_item, remap, if_visible, shows,
  completed_visibility, current_completed_payload,
}
use stream_sub_translator.Subtitle.Current.{
  text_of, lang_of, uncounted, Joined, append_item, can_keep, find_translation, join_translation,
  join_line, join_lines, partial_item, empty_payload, partial_payload, joined_payload, Built,
  body_of, build_presentation_payload,
}

-- The visible items are those of the items that are shown, no more translations among them than
-- the payload allows, and the two lines are the texts of the visible items.
abbrev pub IsCoherent : SubtitlePayloadEvent → Type 0
IsCoherent p =
    (p.visible_items ≡ keep is_shown p.items)
    × (length (keep is_translation p.visible_items) ≤ p.max_translation_languages)
    × (p.max_translation_languages ≤ 5)
    × (p.line1 ≡ first_line p.visible_items)
    × (p.line2 ≡ other_lines p.visible_items)

-- A property of a payload, where there is one.
abbrev pub OnSome : (SubtitlePayloadEvent → Type 0) → Option SubtitlePayloadEvent → Type 0
OnSome P none = Unit
OnSome P (some p) = P p

OnSome-if_any :
    (P : SubtitlePayloadEvent → Type 0) (p : SubtitlePayloadEvent) (items : List SubtitleLineItem)
    → P p
    → OnSome P (elim items [ [] ↦ none | _ ↦ some p ])
OnSome-if_any P p [] h = tt
OnSome-if_any P p (item ∷ items) h = h

if_visible-OnSome :
    (P : SubtitlePayloadEvent → Type 0) (p : SubtitlePayloadEvent) → P p → OnSome P (if_visible p)
unfolding if_visible
if_visible-OnSome P p h = OnSome-if_any P p p.visible_items h

build_payload-IsCoherent :
    (hash_order : List Text → List Text) (config : Config) (sequence : ℕ) (r : SubtitleRecord)
    → IsCoherent (build_payload hash_order config sequence r)
unfolding build_payload
build_payload-IsCoherent hash_order config sequence r =
    let v = build_payload-visible hash_order config sequence r in (v.0, v.1, v.2, refl, refl)

remap_item-fewer :
    (f : SubtitleLineItem → Bool)
    → ((item : SubtitleLineItem) → f item ≡ true → is_shown item ≡ true)
    → (items : List SubtitleLineItem)
    → length (keep is_translation (keep is_shown (map (remap_item f) items)))
      ≤ length (keep is_translation (keep is_shown items))
unfolding remap_item is_shown
remap_item-fewer f h [] = omega arith
remap_item-fewer f h (item ∷ items) = ground (arith, h item, remap_item-fewer f h items)

remap-IsCoherent :
    (f : SubtitleLineItem → Bool) (p : SubtitlePayloadEvent)
    → ((item : SubtitleLineItem) → f item ≡ true → is_shown item ≡ true)
    → IsCoherent p
    → IsCoherent (remap f p)
unfolding remap
remap-IsCoherent f p h (v, b, m, l, k) =
    let e = ap (λ (items : List SubtitleLineItem). length (keep is_translation items)) v in
    (refl, omega (arith, e, remap_item-fewer f h p.items), m, refl, refl)

-- The same of what the loop over the display order has built.
abbrev IsJoined : ℕ → Joined → Type 0
IsJoined n (items, visible, stale) =
    (visible ≡ keep is_shown items) × (length (keep is_translation visible) ≤ n)

module _ (hash_order : List Text → List Text) (config : Config) (now : ℕ) where
  shows-is_shown :
      (hide_source : Bool) (v : Bool × Bool) (item : SubtitleLineItem)
      → shows hash_order config now hide_source v item ≡ true
      → is_shown item ≡ true
  unfolding is_shown
  shows-is_shown hide_source (s, t) item h = ground arith

  pub current_completed-OnSome :
      (P : SubtitlePayloadEvent → Type 0)
      → ((f : SubtitleLineItem → Bool) (p : SubtitlePayloadEvent)
          → ((item : SubtitleLineItem) → f item ≡ true → is_shown item ≡ true)
          → P p
          → P (remap f p))
      → ((sequence : ℕ) (r : SubtitleRecord) → P (build_payload hash_order config sequence r))
      → (hide_source : Bool) (core : SubtitleLifecycleCore)
      → OnSome P (current_completed_payload hash_order config now hide_source core)
  unfolding current_completed_payload
  current_completed-OnSome P kept built hide_source core =
      elim (Option-cases core.completed_sequence) [
        | inl e ↦ rw (current_completed_payload, e) tt
        | inr (s, e) ↦ elim (Option-cases (record_of s core)) [
          | inl f ↦ rw (current_completed_payload, e, f) tt
          | inr (r, f) ↦
              let show =
                shows hash_order config now hide_source
                  (completed_visibility hash_order config now core) in
              rw (current_completed_payload, e, f)
                (if_visible-OnSome P (remap show (build_payload hash_order config s r)) (
                  kept show (build_payload hash_order config s r)
                    (shows-is_shown hide_source (completed_visibility hash_order config now core))
                    (built s r)))
        ]
      ]

append_item-IsCoherent :
    (n : ℕ) (item : SubtitleLineItem) (suppressed : ℕ) (joined : Joined)
    → (is_shown item ≡ true
        → is_translation item ≡ true
        → length (keep is_translation joined.1) + 1 ≤ n)
    → IsJoined n joined
    → IsJoined n (append_item item suppressed joined)
append_item-IsCoherent n item suppressed (items, visible, stale) room (e, b) = (
  ground (arith, keep-append is_shown items item),
  ground (arith, room, length-keep_append_if visible item (is_shown item)),
)

bound_of : OutputConfig → ℕ
bound_of output = min (or_default 0 output.max_translation_languages) 5

shown-visible :
    (item : SubtitleLineItem) (b : Bool) (slot : Option Text)
    → is_shown (record item { visible = b; style_slot = slot }) ≡ true
    → b ≡ true
unfolding is_shown
shown-visible item b slot h = ground arith

can_keep-room :
    (preserve : Bool) (output : OutputConfig) (visible : List SubtitleLineItem)
    (item : SubtitleLineItem)
    → can_keep preserve output visible item ≡ true
    → length (keep is_translation visible) + 1 ≤ bound_of output
unfolding can_keep bound_of
can_keep-room preserve output visible item h = ground arith

join_translation-IsJoined :
    (preserve : Bool) (output : OutputConfig) (code : Text) (found : Option SubtitleLineItem)
    (joined : Joined)
    → IsJoined (bound_of output) joined
    → IsJoined (bound_of output) (join_translation preserve output code found joined)
unfolding join_translation bound_of
join_translation-IsJoined preserve output code none joined h = h
join_translation-IsJoined preserve output code (some item) (items, visible, stale) h =
    let can_show = can_keep preserve output visible item in
    append_item-IsCoherent (bound_of output)
      (record item { visible = can_show; style_slot = if can_show then some code else none })
      (if not preserve && not (is_empty item.text) then 1 else 0) (items, visible, stale)
      (λ shown translated.
        can_keep-room preserve output visible item
          (shown-visible item can_show (if can_show then some code else none) shown))
      h

join_line-IsJoined :
    (preserve : Bool) (output : OutputConfig) (source_item : SubtitleLineItem)
    (completed : List SubtitleLineItem) (code : Text) (joined : Joined)
    → is_translation source_item ≡ false
    → IsJoined (bound_of output) joined
    → IsJoined (bound_of output) (join_line preserve output source_item completed code joined)
unfolding join_line
join_line-IsJoined preserve output source_item completed code joined s h =
    if_both (IsJoined (bound_of output)) (same code source_code) (append_item source_item 0 joined)
      (join_translation preserve output code (find_translation code completed) joined)
      (append_item-IsCoherent (bound_of output) source_item 0 joined
        (λ a b. absurd (grind (arith, a, b, s))) h)
      (join_translation-IsJoined preserve output code (find_translation code completed) joined h)

join_lines-IsJoined :
    (preserve : Bool) (output : OutputConfig) (source_item : SubtitleLineItem)
    (completed : List SubtitleLineItem) (order : List Text) (joined : Joined)
    → is_translation source_item ≡ false
    → IsJoined (bound_of output) joined
    → IsJoined (bound_of output) (join_lines preserve output source_item completed order joined)
unfolding join_lines
join_lines-IsJoined preserve output source_item completed [] joined s h = h
join_lines-IsJoined preserve output source_item completed (code ∷ order) joined s h =
    join_lines-IsJoined preserve output source_item completed order
      (join_line preserve output source_item completed code joined) s
      (join_line-IsJoined preserve output source_item completed code joined s h)

joined_payload-IsCoherent :
    (hash_order : List Text → List Text) (config : Config) (p : Option ActivePartial)
    (completed : SubtitlePayloadEvent)
    → IsCoherent (joined_payload hash_order config p completed).payload
unfolding joined_payload partial_item bound_of
joined_payload-IsCoherent hash_order config p completed =
    let output = output_of config in
    let item =
      partial_item (or_default true output.show_source)
        (or_default completed.source_lang (lang_of p)) p in
    let h =
      join_lines-IsJoined (lifecycle_config config).keep_completed_translation_during_active_partial
        output item completed.items (resolved_display_order hash_order config) ([], [], 0) refl
        (refl, omega arith) in
    (h.0, h.1, omega arith, refl, refl)

partial_payload-IsCoherent :
    (hash_order : List Text → List Text) (config : Config) (p : Option ActivePartial)
    → IsCoherent (partial_payload hash_order config p)
unfolding partial_payload partial_item empty_payload other_lines bound_of
partial_payload-IsCoherent hash_order config p =
    let lang = or_default (or_default (codes "auto") config.source_lang) (lang_of p) in
    let item = partial_item (or_default true (output_of config).show_source) lang p in
    (
      refl,
      if_both (λ items. length (keep is_translation items) ≤ bound_of (output_of config))
          (is_shown item) (item ∷ []) [] (omega arith) (omega arith),
      omega arith,
      refl,
      if_both (λ items. [] ≡ other_lines items) (is_shown item) (item ∷ []) [] refl refl,
    )

empty_payload-IsCoherent :
    (hash_order : List Text → List Text) (config : Config)
    → IsCoherent (empty_payload hash_order config)
unfolding empty_payload other_lines first_line
empty_payload-IsCoherent hash_order config = (refl, omega arith, omega arith, refl, refl)

body_of-IsCoherent :
    (hash_order : List Text → List Text) (config : Config) (p : Option ActivePartial)
    (beside : Option SubtitlePayloadEvent)
    → OnSome IsCoherent beside
    → IsCoherent (body_of hash_order config p beside).payload
unfolding body_of
body_of-IsCoherent hash_order config p none h =
    if_both IsCoherent (is_empty (text_of p)) (empty_payload hash_order config)
      (partial_payload hash_order config p) (empty_payload-IsCoherent hash_order config)
      (partial_payload-IsCoherent hash_order config p)
body_of-IsCoherent hash_order config p (some completed) h =
    if_both (λ (b : Built). IsCoherent b.payload) (is_empty (text_of p)) (uncounted completed)
      (joined_payload hash_order config p completed) h
      (joined_payload-IsCoherent hash_order config p completed)

-- Whatever is shown, a completed block, a partial, or both, the visible items of the payload are,
-- in order, those of its items that are marked visible and have a text, there are no more
-- translations among them than `max_translation_languages`, and never more than five, the first
-- line is the text of the first visible item, and the second one has the texts of the others.
pub build_presentation_payload-IsCoherent :
    (hash_order : List Text → List Text) (config : Config) (now : ℕ) (core : SubtitleLifecycleCore)
    → IsCoherent (build_presentation_payload hash_order config now core).payload
unfolding build_presentation_payload
build_presentation_payload-IsCoherent hash_order config now core =
    let beside =
      current_completed_payload hash_order config now (not (is_empty (text_of core.active_partial)))
        core in
    body_of-IsCoherent hash_order config core.active_partial beside (
      current_completed-OnSome hash_order config now IsCoherent remap-IsCoherent
        (build_payload-IsCoherent hash_order config) (not (is_empty (text_of core.active_partial)))
        core)
