-- ===== src/Twitch/Replacement.antt =====
-- crates/voicesub-twitch/src/source_text_replacement.rs: the pairs of words to replace, and the rules made of
-- them. The regular expressions are the record `Regexes`, and the built-in pairs, which are read from
-- data/source_text_builtin_pairs.json, are an argument, as is the order in which a hash map gives its values.
pub mod Order
use stream_sub_translator.Common.{
  ℕ, zero, suc, ◌+◌, ltb, Bool, true, false, not, if◌then◌else◌, Option, none, some, List, [], ◌∷◌,
  ◌++◌, map, Text, Text-discrete, codes, is_empty, trim, to_ascii_lowercase, byte_len, lookup,
  insert,
}
use stream_sub_translator.Subtitle.Settings.{or_default}

pub record SourceTextReplacementPair : Type 0 where
  pub source : Text
  pub target : Text

pub record SourceTextReplacementSettings : Type 0 where
  pub enabled : Bool
  pub include_builtin : Bool
  pub case_insensitive : Bool
  pub whole_words : Bool
  pub pairs : List SourceTextReplacementPair

abbrev default_settings : SourceTextReplacementSettings
default_settings = record {
  enabled = false;
  include_builtin = true;
  case_insensitive = true;
  whole_words = true;
  pairs = [];
}

-- The section of the configuration; `none` where a field is not of its type.
pub record ReplacementSection : Type 0 where
  pub enabled : Option Bool
  pub include_builtin : Option Bool
  pub include_builtin_profanity : Option Bool
  pub case_insensitive : Option Bool
  pub whole_words : Option Bool
  pub whole_word_only : Option Bool
  pub pairs : List (Option (Option Text × Option Text))

abbrev pub take_pairs {ℓ} : {A : Type ℓ} → ℕ → List A → List A
take_pairs zero xs = []
take_pairs (suc n) [] = []
take_pairs (suc n) (x ∷ xs) = x ∷ take_pairs n xs

abbrev pub max_pairs : ℕ
max_pairs = 100

unfoldable parse_one : Option Text → Option Text → List SourceTextReplacementPair
unfolding trim
parse_one source target =
    let trimmed_source = trim (or_default [] source) in
    if is_empty trimmed_source
    then []
    else record { source = trimmed_source; target = or_default [] target } ∷ []

unfoldable parse_each : List (Option (Option Text × Option Text)) → List SourceTextReplacementPair
unfolding parse_one
parse_each [] = []
parse_each (none ∷ items) = parse_each items
parse_each (some (source, target) ∷ items) = parse_one source target ++ parse_each items

abbrev bool_field : Option Bool → Option Bool → Bool → Bool
bool_field (some b) other default_value = b
bool_field none other default_value = or_default default_value other

-- `false` in one of the two fields wins.
abbrev whole_words_of : Option Bool → Option Bool → Bool
whole_words_of (some false) other = false
whole_words_of none other = or_default true other
whole_words_of (some true) other = or_default true other

unfoldable pub settings_from_section_value :
    Option ReplacementSection → SourceTextReplacementSettings
unfolding parse_each
settings_from_section_value none = default_settings
settings_from_section_value (some section) = record {
  enabled = or_default false section.enabled;
  include_builtin = bool_field section.include_builtin section.include_builtin_profanity true;
  case_insensitive = or_default true section.case_insensitive;
  whole_words = whole_words_of section.whole_words section.whole_word_only;
  pairs = parse_each (take_pairs max_pairs section.pairs);
}

-- A map from keys to the pairs.
abbrev pub Merged : Type 0
Merged = List (Text × (Text × Text))

unfoldable pub key_for : Bool → Text → Text
unfolding to_ascii_lowercase
key_for case_insensitive source = if case_insensitive then to_ascii_lowercase source else source

-- The custom pairs, of which a later one replaces an earlier one of its key.
unfoldable pub add_custom : Bool → List SourceTextReplacementPair → Merged → Merged
unfolding key_for trim insert
add_custom case_insensitive [] merged = merged
add_custom case_insensitive (pair ∷ pairs) merged =
    let source = trim pair.source in
    add_custom case_insensitive pairs (
      if is_empty source
      then merged
      else insert Text-discrete (key_for case_insensitive source) (source, pair.target) merged)

-- `entry(k).or_insert_with`.
unfoldable pub or_insert : Text → Text × Text → Merged → Merged
unfolding lookup insert
or_insert key value merged = elim (lookup Text-discrete key merged) [
  | none ↦ insert Text-discrete key value merged
  | some _ ↦ merged
]

unfoldable pub add_builtin : Bool → List SourceTextReplacementPair → Merged → Merged
unfolding or_insert key_for trim
add_builtin case_insensitive [] merged = merged
add_builtin case_insensitive (pair ∷ pairs) merged =
    let source = trim pair.source in
    add_builtin case_insensitive pairs (
      if is_empty source
      then merged
      else or_insert (key_for case_insensitive source) (source, pair.target) merged)

-- The pairs by key.
unfoldable pub merge_pairs : List SourceTextReplacementPair → SourceTextReplacementSettings → Merged
unfolding add_custom add_builtin
merge_pairs builtin settings =
    let custom = add_custom settings.case_insensitive (take_pairs max_pairs settings.pairs) [] in
    if settings.include_builtin
    then add_builtin settings.case_insensitive builtin custom
    else custom

-- `sort_by_key` with `Reverse`, which is stable.
unfoldable pub insert_longest : Text × Text → List (Text × Text) → List (Text × Text)
insert_longest pair [] = pair ∷ []
insert_longest pair (other ∷ pairs) =
    let rest = insert_longest pair pairs in
    if ltb (byte_len pair.0) (byte_len other.0) then other ∷ rest else pair ∷ other ∷ pairs

unfoldable pub sort_longest : List (Text × Text) → List (Text × Text)
unfolding insert_longest
sort_longest [] = []
sort_longest (pair ∷ pairs) = insert_longest pair (sort_longest pairs)

abbrev pub value_of : Text × (Text × Text) → Text × Text
value_of (key, value) = value

module _ (value_order : List (Text × Text) → List (Text × Text)) where
  unfoldable pub effective_replacement_pairs :
      List SourceTextReplacementPair → SourceTextReplacementSettings → List (Text × Text)
  unfolding merge_pairs sort_longest
  effective_replacement_pairs builtin settings =
      if not settings.enabled
      then []
      else sort_longest (value_order (map value_of (merge_pairs builtin settings)))

-- What the crate `regex` does: `escape`, and a replacement of all matches of a pattern, which is
-- none where the pattern does not compile.
pub record Regexes : Type 0 where
  pub escape : Text → Text
  pub replace_all : Text → Bool → Text → Text → Option Text

unfoldable pattern_of : Regexes → Bool → Text → Text
pattern_of regexes whole_words source =
    let escaped = regexes.escape source in
    if whole_words then (92 ∷ b'b' ∷ []) ++ escaped ++ (92 ∷ b'b' ∷ []) else escaped

unfoldable apply_rules : Regexes → Bool → Bool → List (Text × Text) → Text → Text
unfolding pattern_of
apply_rules regexes case_insensitive whole_words [] text = text
apply_rules regexes case_insensitive whole_words ((source, target) ∷ pairs) text =
    apply_rules regexes case_insensitive whole_words pairs (
      if is_empty source
      then text
      else or_default text (
          regexes.replace_all (pattern_of regexes whole_words source) case_insensitive target text))

unfoldable pub apply_replacement_rules : Regexes → Bool → Bool → List (Text × Text) → Text → Text
unfolding apply_rules
apply_replacement_rules regexes case_insensitive whole_words pairs text =
    if is_empty text then text else apply_rules regexes case_insensitive whole_words pairs text

unfoldable pub apply_source_text_replacement :
    (List (Text × Text) → List (Text × Text))
    → Regexes
    → List SourceTextReplacementPair
    → SourceTextReplacementSettings
    → Text
    → Text
unfolding effective_replacement_pairs apply_replacement_rules
apply_source_text_replacement value_order regexes builtin settings text =
    if not settings.enabled
    then text
    else apply_replacement_rules regexes settings.case_insensitive settings.whole_words
        (effective_replacement_pairs value_order builtin settings) text
