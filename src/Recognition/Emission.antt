-- ===== src/Recognition/Emission.antt =====
-- crates/voicesub-runtime/src/http/partial_emit.rs: which partials of a segment are emitted.
pub mod Laws
use stream_sub_translator.Common.{
  ℕ, ◌-◌, ◌<◌, ltb, leb, ◌==◌, length, min, max, Bool, true, false, not, ◌&&◌, ◌||◌, if◌then◌else◌,
  Option, none, some, List, [], ◌∷◌, Text, Text-discrete, codes, same, is_empty, trim,
  to_ascii_lowercase, join, split_whitespace, split, space, u32,
}
use stream_sub_translator.Subtitle.Settings.{or_default}
use stream_sub_translator.Recognition.Segments.{
  SegmentStateController, get_last_partial_text, get_last_partial_emit_monotonic,
  mark_partial_emitted, clear_partial_tracking_for_segment,
}

pub record PartialEmitSettings : Type 0 where
  pub partial_emit_mode : Text
  pub partial_min_new_words : ℕ
  pub partial_min_delta_chars : ℕ
  pub partial_coalescing_ms : ℕ

-- `asr.realtime` of the configuration.
pub record RealtimeConfig : Type 0 where
  pub emit_mode : Option Text
  pub min_new_words : Option ℕ
  pub min_delta_chars : Option ℕ
  pub coalescing_ms : Option ℕ

abbrev pub char_delta : Text
char_delta = codes "char_delta"

abbrev pub word_growth : Text
word_growth = codes "word_growth"

unfoldable pub mode_of : Option Text → Text
unfolding to_ascii_lowercase trim same
mode_of none = word_growth
mode_of (some mode) =
    let normalized = to_ascii_lowercase (trim mode) in
    if same normalized char_delta || same normalized word_growth then normalized else word_growth

abbrev pub clamp : ℕ → ℕ → ℕ → ℕ
clamp low high n = min (max n low) high

partial_emit_settings_from_config : RealtimeConfig → PartialEmitSettings
unfolding mode_of
partial_emit_settings_from_config realtime = record {
  partial_emit_mode = mode_of realtime.emit_mode;
  partial_min_new_words = clamp 1 32 (or_default 1 realtime.min_new_words);
  partial_min_delta_chars = clamp 0 256 (or_default 0 realtime.min_delta_chars);
  partial_coalescing_ms = clamp 0 10_000 (or_default 0 realtime.coalescing_ms);
}

unfoldable pub normalize_transcript_text : Text → Text
unfolding split_whitespace join
normalize_transcript_text value = join space (split_whitespace value)

unfoldable pub split_words : Text → List Text
unfolding normalize_transcript_text split
split_words text =
    let normalized = normalize_transcript_text text in
    if is_empty normalized then [] else split 32 normalized

-- `elapsed_ms >= coalescing_ms`, where a text was emitted before.
abbrev has_elapsed : ℕ → ℕ → ℕ → Bool
has_elapsed now previous_emit coalescing_ms = leb coalescing_ms (u32 (now - previous_emit))

-- `growth_chars` is the difference that stops at zero: it is never negative.
unfoldable pub should_emit_char_delta : Text → Text → ℕ → ℕ → Option ℕ → ℕ → Bool
should_emit_char_delta new_norm prev_norm min_delta_chars coalescing_ms previous_emit now =
    let growth = length new_norm - length prev_norm in
    if is_empty prev_norm
    then true
    else if (min_delta_chars == 0) && (coalescing_ms == 0)
    then true
    else if ltb 0 min_delta_chars && leb min_delta_chars growth
    then true
    else elim previous_emit [
      | none ↦ ltb 0 growth
      | some at ↦
          if ltb 0 coalescing_ms && ((min_delta_chars == 0) || ltb growth min_delta_chars)
          then has_elapsed now at coalescing_ms
          else ltb 0 growth
    ]

-- Equality of lists of words, and whether the first list begins the second one.
same_words : List Text → List Text → Bool
unfolding same
same_words [] [] = true
same_words [] (w ∷ ws) = false
same_words (v ∷ vs) [] = false
same_words (v ∷ vs) (w ∷ ws) = same v w && same_words vs ws

unfoldable pub begins : List Text → List Text → Bool
unfolding same
begins [] ws = true
begins (v ∷ vs) [] = false
begins (v ∷ vs) (w ∷ ws) = same v w && begins vs ws

unfoldable pub grows : List Text → List Text → ℕ → Bool
unfolding same_words begins
grows new_words prev_words min_new_words =
    if length prev_words == 0
    then leb min_new_words (length new_words)
    else if ltb (length new_words) (length prev_words)
    then false
    else if length new_words == length prev_words
    then not (same_words new_words prev_words)
    else if not (begins prev_words new_words)
    then true
    else leb min_new_words (length new_words - length prev_words)

unfoldable pub should_emit_word_growth : Text → Text → ℕ → Bool
unfolding split_words grows
should_emit_word_growth new_norm prev_norm min_new_words =
    grows (split_words new_norm) (split_words prev_norm) min_new_words

unfoldable pub should_emit_partial : PartialEmitSettings → Text → Text → Option ℕ → ℕ → Bool
unfolding normalize_transcript_text same to_ascii_lowercase trim should_emit_char_delta
    should_emit_word_growth
should_emit_partial settings new_text previous_text previous_emit now =
    let new_norm = normalize_transcript_text new_text in
    let prev_norm = normalize_transcript_text previous_text in
    if is_empty new_norm
    then false
    else if same new_norm prev_norm
    then false
    else if same (to_ascii_lowercase (trim settings.partial_emit_mode)) char_delta
    then should_emit_char_delta new_norm prev_norm settings.partial_min_delta_chars
        settings.partial_coalescing_ms previous_emit now
    else should_emit_word_growth new_norm prev_norm (max settings.partial_min_new_words 1)

-- `PartialEmitCoordinator`, whose state is that of the segments.
unfoldable pub should_emit :
    PartialEmitSettings → ℕ → Text → Text → SegmentStateController → SegmentStateController × Bool
unfolding should_emit_partial get_last_partial_text get_last_partial_emit_monotonic
    mark_partial_emitted
should_emit settings now segment_id text state =
    let should =
      should_emit_partial settings text (get_last_partial_text segment_id state)
        (get_last_partial_emit_monotonic segment_id state) now in
    (if should then mark_partial_emitted now segment_id text state else state, should)

unfoldable pub clear_segment : Text → SegmentStateController → SegmentStateController
unfolding clear_partial_tracking_for_segment
clear_segment segment_id state = clear_partial_tracking_for_segment (some segment_id) state
