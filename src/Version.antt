-- ===== src/Version.antt =====
-- crates/voicesub-types/src/version.rs: versions, their order, and the latest release of a list.
pub mod RoundTrip
pub mod Latest
pub mod Info
use stream_sub_translator.Common.{
  ℕ, zero, suc, ◌+◌, ◌^◌, ltb, ◌==◌, Bool, true, false, not, ◌&&◌, ◌||◌, if◌then◌else◌, Option,
  none, some, List, [], ◌∷◌, ◌++◌, Text, codes, same, is_empty, trim, to_ascii_lowercase, join,
  split, decimal, parse_unsigned,
}
use stream_sub_translator.Subtitle.Settings.{or_default}
use stream_sub_translator.Recognition.Segments.{trimmed}

pub record SemVer : Type 0 where
  pub major : ℕ
  pub minor : ℕ
  pub patch : ℕ
  pub build : ℕ

-- A part of a version is a `u32`.
abbrev pub u32_bound : ℕ
u32_bound = 2 ^ 32

-- `trim_start_matches('v')`.
unfoldable pub trim_v : Text → Text
trim_v [] = []
trim_v (c ∷ s) = elim (c == b'v') [ true ↦ trim_v s | false ↦ c ∷ s ]

-- What stands before the first `-` or `+`.
unfoldable pub core_of : Text → Text
core_of [] = []
core_of (c ∷ s) = elim ((c == b'-') || (c == b'+')) [ true ↦ [] | false ↦ c ∷ core_of s ]

abbrev pub semver_of : Option ℕ → Option ℕ → Option ℕ → ℕ → Option SemVer
semver_of (some major) (some minor) (some patch) build =
    some (record { major = major; minor = minor; patch = patch; build = build })
semver_of (some major) (some minor) none build = none
semver_of (some major) none patch build = none
semver_of none minor patch build = none

abbrev pub build_of : List Text → ℕ
build_of [] = 0
build_of (part ∷ parts) = or_default 0 (parse_unsigned u32_bound part)

unfoldable pub from_parts : List Text → Option SemVer
unfolding parse_unsigned
from_parts [] = none
from_parts (a ∷ []) = none
from_parts (a ∷ b ∷ []) = none
from_parts (a ∷ b ∷ c ∷ parts) =
    semver_of (parse_unsigned u32_bound a) (parse_unsigned u32_bound b) (parse_unsigned u32_bound c)
      (build_of parts)

unfoldable pub parse_semver : Text → Option SemVer
unfolding trim trim_v core_of split from_parts
parse_semver value =
    let text = trim_v (trim value) in
    if is_empty text then none else from_parts (split b'.' (core_of text))

unfoldable pub format_semver : SemVer → Text
unfolding decimal join
format_semver v =
    let three = decimal v.major ∷ decimal v.minor ∷ decimal v.patch ∷ [] in
    join (codes ".") (if ltb 0 v.build then three ++ decimal v.build ∷ [] else three)

-- `>`, as it is derived: the first field that differs decides.
unfoldable pub is_greater : SemVer → SemVer → Bool
is_greater v w =
    if v.major == w.major
    then (if v.minor == w.minor
        then (if v.patch == w.patch then ltb w.build v.build else ltb w.patch v.patch)
        else ltb w.minor v.minor)
    else ltb w.major v.major

abbrev newer_of : Option SemVer → Option SemVer → Bool
newer_of none remote = false
newer_of (some local) none = false
newer_of (some local) (some remote) = is_greater remote local

unfoldable pub is_remote_version_newer : Text → Text → Bool
unfolding parse_semver is_greater
is_remote_version_newer local_version remote_version =
    newer_of (parse_semver local_version) (parse_semver remote_version)

-- One release of the list; `none` where an entry is no object.
pub record Release : Type 0 where
  pub draft : Option Bool
  pub prerelease : Option Bool
  pub tag_name : Option Text
  pub name : Option Text
  pub html_url : Option Text

unfoldable pub is_prerelease_channel : Text → Bool
unfolding trim to_ascii_lowercase same
is_prerelease_channel channel = same (to_ascii_lowercase (trim channel)) (codes "prerelease")

abbrev first_text : Option Text → Option Text → Option Text
first_text none t = t
first_text (some s) t = some s

tag_of : Release → Option Text
unfolding trimmed
tag_of release = first_text (trimmed release.tag_name) (trimmed release.name)

-- Whether the channel takes a release.
is_taken : Bool → Release → Bool
is_taken all release =
    not (or_default false release.draft) && (all || not (or_default false release.prerelease))

abbrev version_of_tag : Option Text → Option (SemVer × Text)
version_of_tag none = none
version_of_tag (some tag) = elim (parse_semver tag) [ none ↦ none | some v ↦ some (v, tag) ]

-- The version of a release that counts, with its tag.
unfoldable pub usable : Bool → Option Release → Option (SemVer × Text)
unfolding is_taken tag_of parse_semver
usable all none = none
usable all (some release) = if is_taken all release then version_of_tag (tag_of release) else none

-- The best release so far: its version, its tag and its address.
pub record Best : Type 0 where
  pub version : SemVer
  pub raw : Text
  pub url : Option Text

abbrev pub url_of : Option Release → Option Text
url_of none = none
url_of (some release) = trimmed release.html_url

abbrev pub beats : SemVer → Option Best → Bool
beats v none = true
beats v (some best) = is_greater v best.version

unfoldable pub scan_one : Bool → Option Release → Option Best → Option Best
unfolding usable is_greater trimmed
scan_one all item best = elim (usable all item) [
  | none ↦ best
  | some (v, tag) ↦
      if beats v best then some (record { version = v; raw = tag; url = url_of item }) else best
]

unfoldable pub scan : Bool → List (Option Release) → Option Best → Option Best
unfolding scan_one
scan all [] best = best
scan all (item ∷ items) best = scan all items (scan_one all item best)

-- How many entries are objects.
abbrev pub scanned : List (Option Release) → ℕ
scanned [] = 0
scanned (none ∷ items) = scanned items
scanned (some release ∷ items) = scanned items + 1

latest_message : Best → Text
unfolding format_semver trim trim_v same
latest_message best =
    let formatted = format_semver best.version in
    let raw = trim_v (trim best.raw) in
    if not (is_empty raw) && not (same raw formatted)
    then codes "Latest release tag: " ++ raw ++ codes " (normalized to " ++ formatted ++ codes ")."
    else codes "Latest release version: " ++ formatted ++ codes "."

unfoldable pub report : ℕ → Option Best → Option Text × Text × Option Text
unfolding latest_message format_semver decimal
report count none = (
  none,
  codes "No usable release versions found (scanned " ++ decimal count ++ codes " releases).",
  none,
)
report count (some best) = (some (format_semver best.version), latest_message best, best.url)

unfoldable pub extract_latest_github_release :
    Option (List (Option Release)) → Text → Option Text × Text × Option Text
unfolding is_prerelease_channel scan report
extract_latest_github_release none release_channel =
    (none, codes "GitHub releases payload was not a list.", none)
extract_latest_github_release (some items) release_channel =
    report (scanned items) (scan (is_prerelease_channel release_channel) items none)
