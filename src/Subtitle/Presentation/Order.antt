-- ===== src/Subtitle/Presentation/Order.antt =====
-- crates/voicesub-subtitle/src/presentation.rs: the display order names each line once.
use stream_sub_translator.Common.{
  same_self, ◌≡◌, refl, Bool, true, false, not, ◌&&◌, ◌||◌, if◌then◌else◌, all, Option, none, some,
  List, [], ◌∷◌, ◌++◌, map, Text, Text-discrete, same, trim, to_ascii_lowercase, lookup, keys,
  if_both, arith,
}
use stream_sub_translator.Subtitle.Settings.{
  Config, or_default, translation_slot_map, legacy_language_to_slot_map,
}
use stream_sub_translator.Subtitle.Presentation.{
  has, push_new, push_mapped, push_all, normalize_one, normalize_all, resolved_display_order,
  source_code, output_of,
}

-- No text stands twice.
abbrev pub is_distinct : List Text → Bool
is_distinct [] = true
is_distinct (t ∷ ts) = not (has t ts) && is_distinct ts

same-sym : (s t : Text) → same s t ≡ same t s
unfolding same
same-sym s t = ground arith

has-append : (t u : Text) (ts : List Text) → has t (ts ++ u ∷ []) ≡ has t ts || same t u
unfolding has
has-append t u [] = ground arith
has-append t u (s ∷ ts) = ground (arith, has-append t u ts)

distinct-append :
    (u : Text) (ts : List Text)
    → is_distinct ts ≡ true
    → has u ts ≡ false
    → is_distinct (ts ++ u ∷ []) ≡ true
unfolding has
distinct-append u [] d h = refl
distinct-append u (s ∷ ts) d h =
    ground (arith, distinct-append u ts, has-append s u ts, same-sym s u)

distinct-push_new :
    (u : Text) (ts : List Text) → is_distinct ts ≡ true → is_distinct (push_new u ts) ≡ true
unfolding push_new
distinct-push_new u ts d = ground (arith, distinct-append u ts)

distinct-push_mapped :
    (o : Option Text) (ts : List Text)
    → is_distinct ts ≡ true
    → is_distinct (push_mapped o ts) ≡ true
unfolding push_mapped
distinct-push_mapped none ts d = d
distinct-push_mapped (some u) ts d = distinct-push_new u ts d

distinct-guarded :
    (b : Bool) (u : Text) (ts rest : List Text)
    → is_distinct ts ≡ true
    → is_distinct rest ≡ true
    → is_distinct (if b && not (has u ts) then ts ++ u ∷ [] else rest) ≡ true
distinct-guarded b u ts rest d r = ground (arith, distinct-append u ts d)

distinct-normalize_one :
    (slots : List Text) (languages : List (Text × Text)) (item : Option Text) (ts : List Text)
    → is_distinct ts ≡ true
    → is_distinct (normalize_one slots languages item ts) ≡ true
unfolding normalize_one
distinct-normalize_one slots languages item ts d =
    let value = to_ascii_lowercase (trim (or_default [] item)) in
    let mapped = push_mapped (lookup Text-discrete value languages) ts in
    if_both (λ us. is_distinct us ≡ true) (same value source_code) (push_new source_code ts)
      (if has value slots && not (has value ts) then ts ++ value ∷ [] else mapped)
      (distinct-push_new source_code ts d)
      (distinct-guarded (has value slots) value ts mapped d
        (distinct-push_mapped (lookup Text-discrete value languages) ts d))

distinct-normalize_all :
    (slots : List Text) (languages : List (Text × Text)) (raw : List (Option Text)) (ts : List Text)
    → is_distinct ts ≡ true
    → is_distinct (normalize_all slots languages raw ts) ≡ true
unfolding normalize_all
distinct-normalize_all slots languages [] ts d = d
distinct-normalize_all slots languages (item ∷ raw) ts d =
    distinct-normalize_all slots languages raw (normalize_one slots languages item ts)
      (distinct-normalize_one slots languages item ts d)

distinct-push_all :
    (us ts : List Text) → is_distinct ts ≡ true → is_distinct (push_all us ts) ≡ true
unfolding push_all
distinct-push_all [] ts d = d
distinct-push_all (u ∷ us) ts d = distinct-push_all us (push_new u ts) (distinct-push_new u ts d)

has-push_new : (t u : Text) (ts : List Text) → has t ts ≡ true → has t (push_new u ts) ≡ true
unfolding push_new
has-push_new t u ts h = ground (arith, has-append t u ts)

has-push_new_self : (u : Text) (ts : List Text) → has u (push_new u ts) ≡ true
unfolding push_new
has-push_new_self u ts = ground (arith, has-append u u ts, same_self u)

has-push_all : (t : Text) (us ts : List Text) → has t ts ≡ true → has t (push_all us ts) ≡ true
unfolding push_all
has-push_all t [] ts h = h
has-push_all t (u ∷ us) ts h = has-push_all t us (push_new u ts) (has-push_new t u ts h)

all_pushed : (us ts : List Text) → all (λ u. has u (push_all us ts)) us ≡ true
unfolding push_all
all_pushed [] ts = refl
all_pushed (u ∷ us) ts = ground (
  arith,
  all_pushed us (push_new u ts),
  has-push_all u us (push_new u ts) (has-push_new_self u ts),
)

-- Whatever order the hash map gives, the display order has no line twice, has the source line, and
-- has every slot that the hash map gives.
pub display_order-distinct :
    (hash_order : List Text → List Text) (config : Config)
    → (is_distinct (resolved_display_order hash_order config) ≡ true)
      × (has source_code (resolved_display_order hash_order config) ≡ true)
      × (all
            (λ slot. has slot (resolved_display_order hash_order config))
            (hash_order (keys (translation_slot_map config.translation)))
          ≡ true)
unfolding resolved_display_order
display_order-distinct hash_order config =
    let slots = hash_order (keys (translation_slot_map config.translation)) in
    let languages = legacy_language_to_slot_map config.translation in
    let raw = or_default (some source_code ∷ map some slots) (output_of config).display_order in
    let normalized = normalize_all slots languages raw [] in
    (
      distinct-push_all slots (push_new source_code normalized) (
          distinct-push_new source_code normalized
            (distinct-normalize_all slots languages raw [] refl)),
      has-push_all source_code slots (push_new source_code normalized)
          (has-push_new_self source_code normalized),
      all_pushed slots (push_new source_code normalized),
    )
