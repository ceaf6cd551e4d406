-- ===== src/Subtitle/Current/State.antt =====
-- crates/voicesub-subtitle/src/presentation.rs, `build_presentation_payload`: the lifecycle state of the
-- payload, and what is hidden with the source.
use stream_sub_translator.Common.{
  ◌⊎◌, ℕ, ◌≡◌, refl, sym, ◌∙◌, Bool, true, false, not, ◌&&◌, if◌then◌else◌, keep, Option, none,
  List, [], ◌∷◌, map, inl, inr, Text, is_empty, Bool-cases, Option-cases, arith,
}
use stream_sub_translator.Events.{
  LifecycleState, idle, partial_only, completed_only, completed_with_partial, SubtitleLineItem,
  SubtitlePayloadEvent,
}
use stream_sub_translator.Subtitle.Settings.{Config}
use stream_sub_translator.Subtitle.Presentation.{is_shown, build_payload}
use stream_sub_translator.Subtitle.Lifecycle.{
  SubtitleLifecycleCore, is_there, remap_item, remap, if_visible, shows, record_of,
  completed_visibility, current_completed_payload,
}
use stream_sub_translator.Subtitle.Current.{
  text_of, body_of, has_visible_items, build_presentation_payload, state_of, empty_payload,
}

-- The states in which a completed block is shown.
abbrev pub has_completed : LifecycleState → Bool
has_completed idle = false
has_completed partial_only = false
has_completed completed_only = true
has_completed completed_with_partial = true

list-cases : {A : Type 0} (xs : List A) → (xs ≡ []) ⊎ ((x : A) × (ys : List A) × (xs ≡ x ∷ ys))
list-cases [] = inl refl
list-cases (x ∷ ys) = inr (x, ys, refl)

has_visible-if_visible :
    (p : SubtitlePayloadEvent) → has_visible_items (if_visible p) ≡ is_there (if_visible p)
unfolding if_visible
has_visible-if_visible p = elim (list-cases p.visible_items) [
  | inl e ↦ rw (if_visible, e) refl
  | inr (item, items, e) ↦ rw (if_visible, e, e) refl
]

nonempty : List SubtitleLineItem → Bool
nonempty [] = false
nonempty (item ∷ items) = true

is_there-if_visible :
    (p : SubtitlePayloadEvent) → is_there (if_visible p) ≡ nonempty p.visible_items
unfolding if_visible nonempty
is_there-if_visible p = elim (list-cases p.visible_items) [
  | inl e ↦ rw (if_visible, e) refl
  | inr (item, items, e) ↦ rw (if_visible, e) refl
]

keep-more :
    (f g : SubtitleLineItem → Bool)
    → ((item : SubtitleLineItem) → f item ≡ true → g item ≡ true)
    → (items : List SubtitleLineItem) → nonempty (keep is_shown (map (remap_item f) items)) ≡ true
    → nonempty (keep is_shown (map (remap_item g) items)) ≡ true
unfolding nonempty is_shown remap_item
keep-more f g more [] h = h
keep-more f g more (item ∷ items) h = ground (arith, more item, keep-more f g more items)

remap-more :
    (f g : SubtitleLineItem → Bool) (p : SubtitlePayloadEvent)
    → ((item : SubtitleLineItem) → f item ≡ true → g item ≡ true)
    → is_there (if_visible (remap f p)) ≡ true
    → is_there (if_visible (remap g p)) ≡ true
unfolding remap
remap-more f g p more h =
    is_there-if_visible (remap g p)
    ∙ keep-more f g more p.items (sym (is_there-if_visible (remap f p)) ∙ h)

completed_case : (c v : Bool) → v ≡ c → v ≡ has_completed (if c then completed_only else idle)
completed_case c v e = ground arith

beside_case :
    (b c v : Bool)
    → v ≡ c
    → (b ≡ true → c ≡ true)
    → (b && v) ≡ has_completed (if b then completed_with_partial else partial_only)
beside_case b c v e h = ground (arith, h)

idle_case : (t c b : Bool) → state_of t c b ≡ idle → (t ≡ false) × (c ≡ false)
idle_case t c b h = ground arith

OnSome-none : (o : Option SubtitlePayloadEvent) → is_there o ≡ false → o ≡ none
OnSome-none o h = ground arith

module _ (hash_order : List Text → List Text) (config : Config) (now : ℕ) where
  completed_visible :
      (hide_source : Bool) (core : SubtitleLifecycleCore)
      → has_visible_items (current_completed_payload hash_order config now hide_source core)
        ≡ is_there (current_completed_payload hash_order config now hide_source core)
  unfolding current_completed_payload
  completed_visible hide_source core = elim (Option-cases core.completed_sequence) [
    | inl e ↦ rw (current_completed_payload, e) refl
    | inr (s, e) ↦ elim (Option-cases (record_of s core)) [
      | inl f ↦ rw (current_completed_payload, e, f) refl
      | inr (r, f) ↦
          rw (current_completed_payload, e, f)
            (has_visible-if_visible (
              remap
                (shows hash_order config now hide_source
                  (completed_visibility hash_order config now core))
                (build_payload hash_order config s r)))
    ]
  ]

  shows-more :
      (v : Bool × Bool) (item : SubtitleLineItem)
      → shows hash_order config now true v item ≡ true
      → shows hash_order config now false v item ≡ true
  shows-more (s, t) item h = ground arith

  -- A block that is shown beside a partial is shown without it as well.
  completed_beside :
      (core : SubtitleLifecycleCore)
      → is_there (current_completed_payload hash_order config now true core) ≡ true
      → is_there (current_completed_payload hash_order config now false core) ≡ true
  unfolding current_completed_payload
  completed_beside core = elim (Option-cases core.completed_sequence) [
    | inl e ↦ rw (current_completed_payload, e) (λ h. h)
    | inr (s, e) ↦ elim (Option-cases (record_of s core)) [
      | inl f ↦ rw (current_completed_payload, e, f) (λ h. h)
      | inr (r, f) ↦
          let v = completed_visibility hash_order config now core in
          let p = build_payload hash_order config s r in
          rw (current_completed_payload, e, f)
            (remap-more (shows hash_order config now true v) (shows hash_order config now false v) p
              (shows-more v))
    ]
  ]

  -- The completed block is marked visible exactly in the states that have one.
  pub completed_block-state :
      (core : SubtitleLifecycleCore)
      → (build_presentation_payload hash_order config now core).payload.completed_block_visible
        ≡ has_completed
            (build_presentation_payload hash_order config now core).payload.lifecycle_state
  unfolding build_presentation_payload
  completed_block-state core = elim (Bool-cases (is_empty (text_of core.active_partial))) [
    | inl e ↦ rw (build_presentation_payload, e) (completed_case _ _ (completed_visible false core))
    | inr e ↦
        rw (build_presentation_payload, e)
          (beside_case _ _ _ (completed_visible false core) (completed_beside core))
  ]

  -- Nothing is visible in the idle state.
  pub idle-visible :
      (core : SubtitleLifecycleCore)
      → (build_presentation_payload hash_order config now core).payload.lifecycle_state ≡ idle
      → (build_presentation_payload hash_order config now core).payload.visible_items ≡ []
  unfolding build_presentation_payload body_of empty_payload
  idle-visible core h =
      let text = text_of core.active_partial in
      let completed = current_completed_payload hash_order config now false core in
      let c = idle_case (not (is_empty text)) (is_there completed) _ h in
      elim (Bool-cases (is_empty text)) [
        | inl e ↦ rw (build_presentation_payload, e, OnSome-none completed c.1, e) refl
        | inr e ↦ absurd (ground (arith, c.0, e))
      ]
