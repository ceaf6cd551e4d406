-- ===== src/Twitch/Filter.antt =====
-- crates/voicesub-twitch/src/filter.rs, which messages of a chat are spoken, and replacements.rs, the name
-- that is spoken for a user. Of the settings the record has the fields that these functions read.
use stream_sub_translator.Common.{
  ◌==◌, Bool, true, false, not, ◌&&◌, any, if◌then◌else◌, Option, none, some, List, [], ◌∷◌, Text,
  Text-discrete, codes, same, is_empty, trim, to_ascii_lowercase, lookup, insert,
}

pub record TwitchReplacement : Type 0 where
  pub replaced : Text
  pub to : Text

pub record TwitchTtsSettings : Type 0 where
  pub speak_chat : Bool
  pub block_commands : Bool
  pub ignore_users : List Text
  pub nick_replacements : List TwitchReplacement

abbrev is_command : Text → Bool
is_command [] = false
is_command (c ∷ s) = c == b'!'

-- `eq_ignore_ascii_case` of the entry without its spaces.
unfoldable names_user : Text → Text → Bool
unfolding same to_ascii_lowercase trim
names_user user_key entry = same (to_ascii_lowercase (trim entry)) (to_ascii_lowercase user_key)

unfoldable pub filter_skip_reason : TwitchTtsSettings → Text → Text → Option Text
unfolding names_user trim to_ascii_lowercase
filter_skip_reason settings user text =
    let user_key = to_ascii_lowercase (trim user) in
    if not settings.speak_chat
    then some (codes "speak_chat_disabled")
    else if settings.block_commands && is_command (trim text)
    then some (codes "block_commands")
    else if is_empty user_key
    then some (codes "empty_user")
    else if any (names_user user_key) settings.ignore_users
    then some (codes "ignore_list")
    else none

unfoldable pub should_speak_message : TwitchTtsSettings → Text → Text → Bool
unfolding filter_skip_reason
should_speak_message settings user text = elim (filter_skip_reason settings user text) [
  | none ↦ true
  | some reason ↦ false
]

unfoldable add_replacements : List TwitchReplacement → List (Text × Text) → List (Text × Text)
unfolding trim insert
add_replacements [] entries = entries
add_replacements (entry ∷ rest) entries =
    let key = trim entry.replaced in
    add_replacements rest
      (if is_empty key then entries else insert Text-discrete key (trim entry.to) entries)

unfoldable pub replacement_map : List TwitchReplacement → List (Text × Text)
unfolding add_replacements
replacement_map entries = add_replacements entries []

abbrev or_name : Option Text → Text → Text
or_name (some name) other = name
or_name none other = other

unfoldable pub resolve_spoken_nick : TwitchTtsSettings → Text → Text → Text
unfolding replacement_map lookup trim
resolve_spoken_nick settings login display_name =
    let entries = replacement_map settings.nick_replacements in
    let fallback = trim display_name in
    or_name (lookup Text-discrete (trim display_name) entries) (
      or_name (lookup Text-discrete (trim login) entries)
        (if is_empty fallback then trim login else fallback))
