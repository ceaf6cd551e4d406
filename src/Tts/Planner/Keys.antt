-- ===== src/Tts/Planner/Keys.antt =====
-- crates/voicesub-tts/src/subtitle_speech.rs: the sequence of a key.
use stream_sub_translator.Common.{
  ℕ, ◌^◌, ◌<◌, ◌==◌, ◌≡◌, ap, ◌∙◌, false, true, some, [], ◌++◌, Text, codes, is_digit, IsFree,
  All-weaken, split-first, decimal, parse_unsigned, parse-decimal, decimal-AreDigits, arith,
}
use stream_sub_translator.Events.{LineKind}
use stream_sub_translator.Tts.Planner.{
  speech_key, kind_text, hex_from, stable_text_hash, first_part, sequence_from_speech_key,
}

digit-not_colon : (c : ℕ) → is_digit c ≡ true → (c == b':') ≡ false
digit-not_colon c h = ground arith

decimal-IsFree : (n : ℕ) → IsFree b':' (decimal n)
decimal-IsFree n =
    All-weaken (λ c. is_digit c ≡ true) (λ c. (c == b':') ≡ false) digit-not_colon (decimal n)
      (decimal-AreDigits n)

-- The sequence that is read back from a key is the one that it was made with, whatever stands
-- behind it.
pub sequence_from-speech_key :
    (sequence : ℕ) (kind : LineKind) (slot_id text : Text)
    → sequence < 2 ^ 64
    → sequence_from_speech_key (speech_key sequence kind slot_id text) ≡ some sequence
unfolding sequence_from_speech_key speech_key
sequence_from-speech_key sequence kind slot_id text h =
    let rest =
      kind_text kind
      ++ (codes ":" ++ (slot_id ++ (codes ":" ++ hex_from 16 (stable_text_hash text) []))) in
    ap (λ parts. parse_unsigned (2 ^ 64) (first_part parts))
      (split-first b':' (decimal sequence) rest (decimal-IsFree sequence))
    ∙ parse-decimal (2 ^ 64) sequence h
