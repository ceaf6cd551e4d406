-- ===== src/Tests/Twitch.antt =====
-- Runs of the replacement of words and of the version's information, and theorems at concrete inputs.
use mathlib.Core.List.Perm
use mathlib.Core.List.{Perm}
use stream_sub_translator.Common.{
  ◌≡◌, refl, true, false, none, some, List, [], ◌∷◌, map, if◌then◌else◌, Text, Text-discrete, codes,
  lookup, insert, trim, to_ascii_lowercase, decimal,
}
use stream_sub_translator.Twitch.Replacement.{
  SourceTextReplacementPair, SourceTextReplacementSettings, ReplacementSection, take_pairs,
  max_pairs, settings_from_section_value, merge_pairs, value_of, effective_replacement_pairs,
}
use stream_sub_translator.Twitch.Replacement.Order.{
  or_else, first_of, last_of, lookup-merge_pairs, IsLongestFirst,
  effective_replacement_pairs-IsLongestFirst,
}
use stream_sub_translator.Version.Info.{UpdatesConfig, build_version_info_payload}

abbrev pair : Text → Text → SourceTextReplacementPair
pair source target = record { source = source; target = target }

-- The field of the old name turns whole words off, and the pairs without a source are left out.
abbrev section : ReplacementSection
section = record {
  enabled = some true;
  include_builtin = none;
  include_builtin_profanity = none;
  case_insensitive = none;
  whole_words = some true;
  whole_word_only = some false;
  pairs =
      some (some (codes " Hi "), some (codes "hello"))
      ∷ none
      ∷ some (some (codes "  "), some (codes "x"))
      ∷ some (some (codes "hi"), some (codes "salut"))
      ∷ [];
}

abbrev settings : SourceTextReplacementSettings
settings = record {
  enabled = true;
  include_builtin = true;
  case_insensitive = true;
  whole_words = false;
  pairs = pair (codes "Hi") (codes "hello") ∷ pair (codes "hi") (codes "salut") ∷ [];
}

abbrev builtin : List SourceTextReplacementPair
builtin = pair (codes "HI") (codes "hey") ∷ pair (codes "thanks") (codes "merci") ∷ []

section_run : settings_from_section_value (some section) ≡ settings
unfolding settings_from_section_value trim
section_run = refl

pairs_run :
    effective_replacement_pairs (λ pairs. pairs) builtin settings
    ≡ (codes "thanks", codes "merci") ∷ (codes "hi", codes "salut") ∷ []
unfolding effective_replacement_pairs to_ascii_lowercase trim insert lookup Text-discrete
pairs_run = refl

lookup-merge_pairs_example :
    lookup Text-discrete (codes "hi") (merge_pairs builtin settings)
    ≡ or_else
        (last_of true (codes "hi") (take_pairs max_pairs settings.pairs))
        (if true then first_of true (codes "hi") builtin else none)
lookup-merge_pairs_example = lookup-merge_pairs builtin settings (codes "hi")

effective_replacement_pairs-IsLongestFirst_example :
    IsLongestFirst (effective_replacement_pairs (λ pairs. pairs) builtin settings)
    × Perm
        (map value_of (merge_pairs builtin settings))
        (effective_replacement_pairs (λ pairs. pairs) builtin settings)
effective_replacement_pairs-IsLongestFirst_example =
    effective_replacement_pairs-IsLongestFirst (λ pairs. pairs) builtin settings
      (λ pairs. Perm.refl pairs) refl

abbrev updates : UpdatesConfig
updates = record {
  provider = none;
  github_repo = some (codes " owner/name/ ");
  release_channel = some (codes "PreRelease");
  latest_known_version = some (codes " v0.5.3 ");
  last_checked_utc = none;
  enabled = some true;
}

url_run :
    (build_version_info_payload updates).release_url
    ≡ some (codes "https://github.com/owner/name/releases/tag/v0.5.3")
unfolding build_version_info_payload trim to_ascii_lowercase decimal
url_run = refl
