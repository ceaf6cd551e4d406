-- ===== src/Version/Info.antt =====
-- crates/voicesub-types/src/version.rs, `build_version_info_payload`: what is told of the version and of
-- updates. The constants of the answer and the sub-objects of its JSON are left out.
use mathlib.Core.List.{reverse}
use stream_sub_translator.Common.{
  ◌==◌, Bool, true, false, not, ◌&&◌, if◌then◌else◌, Option, none, some, [], ◌∷◌, ◌++◌, Text, codes,
  same, is_empty, trim, to_ascii_lowercase,
}
use stream_sub_translator.Subtitle.Settings.{or_default}
use stream_sub_translator.Recognition.Segments.{trimmed}
use stream_sub_translator.Version.{is_remote_version_newer, trim_v}

abbrev project_version : Text
project_version = codes "0.5.2"

-- The section `updates` of the configuration; a configuration that is no object has an empty one.
pub record UpdatesConfig : Type 0 where
  pub provider : Option Text
  pub github_repo : Option Text
  pub release_channel : Option Text
  pub latest_known_version : Option Text
  pub last_checked_utc : Option Text
  pub enabled : Option Bool

pub record VersionInfo : Type 0 where
  pub provider : Text
  pub enabled : Bool
  pub github_repo : Option Text
  pub release_channel : Text
  pub latest_known_version : Option Text
  pub last_checked_utc : Option Text
  pub update_available : Bool
  pub check_supported : Bool
  pub release_url : Option Text
  pub message : Text

-- `trim_matches('/')`.
unfoldable trim_slashes_start : Text → Text
trim_slashes_start [] = []
trim_slashes_start (c ∷ s) = elim (c == b'/') [ true ↦ trim_slashes_start s | false ↦ c ∷ s ]

unfoldable trim_slashes : Text → Text
unfolding trim_slashes_start
trim_slashes s = reverse (trim_slashes_start (reverse (trim_slashes_start s)))

unfoldable release_url_for : Text → Text → Text
unfolding trim trim_slashes trim_v
release_url_for github_repo version =
    codes "https://github.com/"
    ++ trim_slashes (trim github_repo)
    ++ codes "/releases/tag/v"
    ++ trim_v (trim version)

-- A word of the configuration that is not the one known other word is the default.
unfoldable channel_of : Option Text → Text
unfolding trim to_ascii_lowercase same
channel_of configured =
    let channel = to_ascii_lowercase (trim (or_default (codes "stable") configured)) in
    if same channel (codes "prerelease") then codes "prerelease" else codes "stable"

abbrev is_update : Option Text → Bool
is_update none = false
is_update (some latest) = is_remote_version_newer project_version latest

abbrev url_if : Bool → Text → Option Text → Option Text
url_if wanted repo none = none
url_if wanted repo (some version) = if wanted then some (release_url_for repo version) else none

unfoldable pub build_version_info_payload : UpdatesConfig → VersionInfo
unfolding trimmed trim channel_of is_remote_version_newer release_url_for
build_version_info_payload updates =
    let repo = trim (or_default [] updates.github_repo) in
    let latest = trimmed updates.latest_known_version in
    let update_available = is_update latest in
    let check_supported = not (is_empty repo) in
    let enabled = or_default false updates.enabled in
    record {
      -- The default, and the one word that is not replaced by it.
      provider = codes "github_releases";
      enabled = enabled;
      github_repo = if is_empty repo then none else some repo;
      release_channel = channel_of updates.release_channel;
      latest_known_version = latest;
      last_checked_utc = trimmed updates.last_checked_utc;
      update_available = update_available;
      check_supported = check_supported;
      release_url = url_if (update_available && not (is_empty repo)) repo latest;
      message =
          if enabled && check_supported
          then codes "Update check is available via /api/updates/check."
          else codes "Update checks are disabled or not configured.";
    }
