-- ===== src/Tts/Planner.antt =====
-- crates/voicesub-tts/src/subtitle_speech.rs: which lines of a published payload are spoken, and the keys that
-- keep a line from being spoken twice. The payload is the one that the subtitles publish.
pub mod Keys
pub mod Once
use stream_sub_translator.Common.{
  ℕ, zero, suc, ◌+◌, ◌-◌, ◌*◌, ◌/◌, ◌%◌, ◌^◌, ltb, leb, ◌==◌, length, keep, any, max, u64, Bool,
  true, false, not, ◌&&◌, ◌||◌, if◌then◌else◌, Option, none, some, List, [], ◌∷◌, ◌++◌, Text, codes,
  same, trim, to_ascii_lowercase, split, decimal, parse_unsigned,
}
use stream_sub_translator.Events.{
  LineKind, source, translation, SubtitleLineItem, LifecycleState, idle, partial_only,
  completed_only, completed_with_partial, SubtitlePayloadEvent,
}
use stream_sub_translator.Subtitle.Settings.{or_default}
use stream_sub_translator.Subtitle.Presentation.{has, is_source}
use stream_sub_translator.Subtitle.Current.{eq_ignore_ascii_case}
use stream_sub_translator.Tts.Queue.{SpeechQueueItem}

pub record TtsSpeechSettings : Type 0 where
  pub speak_source : Bool
  pub speak_translations : Bool
  pub translation_slots : List Text
  pub min_chars : ℕ
  pub max_queue_items : ℕ

-- The keys are a set: their order counts for nothing.
pub record SubtitleSpeechPlanner : Type 0 where
  pub spoken_keys : List Text
  pub max_sequence_seen : ℕ

abbrev pub spoken_keys_max : ℕ
spoken_keys_max = 2_048

abbrev pub sequence_window : ℕ
sequence_window = 384

abbrev pub new_planner : SubtitleSpeechPlanner
new_planner = record { spoken_keys = []; max_sequence_seen = 0 }

-- The bytes of a text.
abbrev utf8 : ℕ → List ℕ
utf8 c =
    if ltb c 0x80
    then c ∷ []
    else if ltb c 0x800
    then (0xc0 + c / 64) ∷ (0x80 + c % 64) ∷ []
    else if ltb c 0x10000
    then (0xe0 + c / 4_096) ∷ (0x80 + c / 64 % 64) ∷ (0x80 + c % 64) ∷ []
    else (0xf0 + c / 262_144)
      ∷ (0x80 + c / 4_096 % 64)
      ∷ (0x80 + c / 64 % 64)
      ∷ (0x80 + c % 64)
      ∷ []

-- The exclusive or of numbers of so many bits.
xor : ℕ → ℕ → ℕ → ℕ
xor zero a b = 0
xor (suc bits) a b = (a + b) % 2 + 2 * xor bits (a / 2) (b / 2)

hash_bytes : ℕ → List ℕ → ℕ
unfolding xor
hash_bytes hash [] = hash
hash_bytes hash (byte ∷ bytes) = hash_bytes (u64 (xor 64 hash byte * 0x100000001b3)) bytes

hash_text : ℕ → Text → ℕ
unfolding hash_bytes
hash_text hash [] = hash
hash_text hash (c ∷ s) = hash_text (hash_bytes hash (utf8 c)) s

unfoldable pub stable_text_hash : Text → ℕ
unfolding hash_text
stable_text_hash text = hash_text 0xcbf29ce484222325 text

-- So many hexadecimal digits.
unfoldable pub hex_from : ℕ → ℕ → Text → Text
hex_from zero n acc = acc
hex_from (suc count) n acc =
    let d = n % 16 in hex_from count (n / 16) ((if ltb d 10 then 48 + d else 87 + d) ∷ acc)

abbrev pub kind_text : LineKind → Text
kind_text source = codes "source"
kind_text translation = codes "translation"

unfoldable pub speech_key : ℕ → LineKind → Text → Text → Text
unfolding decimal hex_from stable_text_hash
speech_key sequence kind slot_id text =
    decimal sequence
    ++ (codes ":"
        ++ (kind_text kind
            ++ (codes ":" ++ (slot_id ++ (codes ":" ++ hex_from 16 (stable_text_hash text) [])))))

abbrev pub first_part : List Text → Text
first_part [] = []
first_part (part ∷ parts) = part

unfoldable pub sequence_from_speech_key : Text → Option ℕ
unfolding split parse_unsigned
sequence_from_speech_key key = parse_unsigned (2 ^ 64) (first_part (split b':' key))

translation_slot_allowed : TtsSpeechSettings → Text → Bool
unfolding eq_ignore_ascii_case trim to_ascii_lowercase
translation_slot_allowed settings slot_id =
    let slot = to_ascii_lowercase (trim slot_id) in
    if not settings.speak_translations
    then false
    else if length settings.translation_slots == 0
    then true
    else any (λ entry. eq_ignore_ascii_case (trim entry) slot) settings.translation_slots

-- Whether a visible item may be spoken.
unfoldable pub is_spoken : TtsSpeechSettings → SubtitleLineItem → Bool
unfolding translation_slot_allowed trim
is_spoken settings item =
    item.visible
    && (item.success
        && (leb settings.min_chars (length (trim item.text))
            && (if is_source item
                then settings.speak_source
                else translation_slot_allowed settings (or_default [] item.slot_id))))

unfoldable pub key_of : ℕ → SubtitleLineItem → Text
unfolding speech_key trim
key_of sequence item = speech_key sequence item.kind (or_default [] item.slot_id) (trim item.text)

unfoldable pub speech_item : ℕ → SubtitleLineItem → SpeechQueueItem
unfolding key_of decimal trim
speech_item sequence item =
    let slot_id = or_default [] item.slot_id in
    record {
      id =
          codes "sub-"
          ++ decimal sequence
          ++ codes "-"
          ++ kind_text item.kind
          ++ codes "-"
          ++ slot_id;
      text = trim item.text;
      source = if is_source item then codes "subtitle_source" else codes "subtitle_" ++ slot_id;
      lang = if is_source item then item.lang else or_default item.lang item.target_lang;
      dedupe_key = some (key_of sequence item);
    }

-- The loop over the visible items: the keys, and what is to be spoken. It ends where the queue
-- would be full.
unfoldable pub plan_items :
    TtsSpeechSettings
    → ℕ
    → List SubtitleLineItem
    → List Text
    → List SpeechQueueItem
    → List Text × List SpeechQueueItem
unfolding is_spoken has speech_item key_of
plan_items settings sequence [] keys out = (keys, out)
plan_items settings sequence (item ∷ items) keys out =
    elim (is_spoken settings item && not (has (key_of sequence item) keys)) [
      | false ↦ plan_items settings sequence items keys out
      | true ↦
          let keys' = key_of sequence item ∷ keys in
          let out' = out ++ speech_item sequence item ∷ [] in
          elim (leb settings.max_queue_items (length out')) [
            | true ↦ (keys', out')
            | false ↦ plan_items settings sequence items keys' out'
          ]
    ]

abbrev pub is_recent : ℕ → Option ℕ → Bool
is_recent cutoff none = false
is_recent cutoff (some sequence) = leb cutoff sequence

unfoldable pub maybe_prune_spoken_keys : ℕ → SubtitleSpeechPlanner → SubtitleSpeechPlanner
unfolding sequence_from_speech_key
maybe_prune_spoken_keys current_sequence planner =
    let seen = max current_sequence planner.max_sequence_seen in
    let cutoff = seen - sequence_window in
    let kept = keep (λ key. is_recent cutoff (sequence_from_speech_key key)) planner.spoken_keys in
    record {
      spoken_keys =
          if not (ltb spoken_keys_max (length planner.spoken_keys)) && (cutoff == 0)
          then planner.spoken_keys
          else kept;
      max_sequence_seen = seen;
    }

abbrev pub is_completed_only : LifecycleState → Bool
is_completed_only idle = false
is_completed_only partial_only = false
is_completed_only completed_only = true
is_completed_only completed_with_partial = false

unfoldable pub plan :
    TtsSpeechSettings
    → SubtitlePayloadEvent
    → SubtitleSpeechPlanner
    → SubtitleSpeechPlanner × List SpeechQueueItem
unfolding plan_items maybe_prune_spoken_keys
plan settings payload planner =
    if not (is_completed_only payload.lifecycle_state) || (payload.sequence == 0)
    then (planner, [])
    else let planned =
        plan_items settings payload.sequence payload.visible_items planner.spoken_keys [] in
      (
        maybe_prune_spoken_keys payload.sequence (record planner { spoken_keys = planned.0 }),
        planned.1,
      )

unfoldable pub reset : SubtitleSpeechPlanner → SubtitleSpeechPlanner
reset planner = new_planner

-- `remove`, for each key.
unfoldable pub release_dedupe_keys : List Text → SubtitleSpeechPlanner → SubtitleSpeechPlanner
unfolding has
release_dedupe_keys keys planner = record planner {
  spoken_keys = keep (λ key. not (has key keys)) planner.spoken_keys;
}

-- The calls of a planner: a payload with the settings of its time, keys that are released, and a reset.
pub data PlannerCall : Type 0 where
  planned : TtsSpeechSettings → SubtitlePayloadEvent → PlannerCall
  released : List Text → PlannerCall
  restarted : PlannerCall

-- All that is to be spoken.
unfoldable pub serve_planner :
    List PlannerCall → SubtitleSpeechPlanner → SubtitleSpeechPlanner × List SpeechQueueItem
unfolding plan release_dedupe_keys reset
serve_planner [] planner = (planner, [])
serve_planner (planned settings payload ∷ calls) planner =
    let one = plan settings payload planner in
    let rest = serve_planner calls one.0 in (rest.0, one.1 ++ rest.1)
serve_planner (released keys ∷ calls) planner =
    serve_planner calls (release_dedupe_keys keys planner)
serve_planner (restarted ∷ calls) planner = serve_planner calls (reset planner)
