-- ===== src/Tts/Planner/Once.antt =====
-- crates/voicesub-tts/src/subtitle_speech.rs: no line is spoken twice.
use stream_sub_translator.Common.{
  ℕ, ◌+◌, ◌-◌, ◌^◌, ◌≤◌, ◌<◌, ltb, leb, ◌==◌, length, keep, any, max, ◌≡◌, refl, sym, ap, ◌∙◌, inl,
  inr, Bool, true, false, not, ◌&&◌, ◌||◌, Option, none, some, List, [], ◌∷◌, ◌++◌, Text, same,
  trim, All, Bool-cases, if_both, arith,
}
use stream_sub_translator.Events.{SubtitleLineItem, SubtitlePayloadEvent}
use stream_sub_translator.Subtitle.Settings.{or_default}
use stream_sub_translator.Subtitle.Presentation.{has}
use stream_sub_translator.Tts.Queue.{SpeechQueueItem}
use stream_sub_translator.Tts.Planner.{
  TtsSpeechSettings, SubtitleSpeechPlanner, spoken_keys_max, sequence_window, is_spoken, key_of,
  speech_item, plan_items, is_recent, sequence_from_speech_key, maybe_prune_spoken_keys,
  is_completed_only, plan, PlannerCall, planned, released, restarted, serve_planner,
  release_dedupe_keys,
}
use stream_sub_translator.Tts.Planner.Keys.{sequence_from-speech_key}

abbrev is_key : Text → Option Text → Bool
is_key key none = false
is_key key (some k) = same key k

-- Whether one of the items has the key.
abbrev pub emits : Text → List SpeechQueueItem → Bool
emits key out = any (λ (item : SpeechQueueItem). is_key key item.dedupe_key) out

emits-append :
    (key : Text) (xs ys : List SpeechQueueItem)
    → emits key (xs ++ ys) ≡ emits key xs || emits key ys
emits-append key [] ys = refl
emits-append key (x ∷ xs) ys = ground (arith, emits-append key xs ys)

same-eq : (s t : Text) → same s t ≡ true → s ≡ t
unfolding same
same-eq s t h = ground arith

has-keep :
    (p : Text → Bool) (key : Text) (keys : List Text)
    → has key keys ≡ true
    → p key ≡ true
    → has key (keep p keys) ≡ true
unfolding has
has-keep p key [] h e = h
has-keep p key (k ∷ keys) h e = elim (Bool-cases (same key k)) [
  | inl s ↦ ground (arith, ap p (sym (same-eq key k s)) ∙ e, s)
  | inr s ↦ ground (arith, has-keep p key keys, s, h, e)
]

other_key :
    (key k : Text) (keys : List Text)
    → has key keys ≡ true
    → has k keys ≡ false
    → same key k ≡ false
other_key key k keys h n = elim (Bool-cases (same key k)) [
  | inl s ↦ absurd (grind (arith, h, n, ap (λ t. has t keys) (same-eq key k s)))
  | inr s ↦ s
]

not_had : (a b : Bool) → (a && not b) ≡ true → b ≡ false
not_had a b h = ground arith

emits-other :
    (key : Text) (sequence : ℕ) (item : SubtitleLineItem) (out : List SpeechQueueItem)
    → same key (key_of sequence item) ≡ false
    → emits key (out ++ speech_item sequence item ∷ []) ≡ emits key out
unfolding speech_item
emits-other key sequence item out n =
    emits-append key out (speech_item sequence item ∷ []) ∙ ground (arith, n)

has-cons : (key k : Text) (keys : List Text) → has key keys ≡ true → has key (k ∷ keys) ≡ true
unfolding has
has-cons key k keys h = ground arith

-- A key that is there stays, and nothing that has it is planned.
plan_items-keeps :
    (settings : TtsSpeechSettings) (sequence : ℕ) (items : List SubtitleLineItem) (keys : List Text)
    (out : List SpeechQueueItem) (key : Text)
    → has key keys ≡ true
    → (has key (plan_items settings sequence items keys out).0 ≡ true)
      × (emits key (plan_items settings sequence items keys out).1 ≡ emits key out)
unfolding plan_items
plan_items-keeps settings sequence [] keys out key h = (h, refl)
plan_items-keeps settings sequence (item ∷ items) keys out key h =
    let k = key_of sequence item in
    let out' = out ++ speech_item sequence item ∷ [] in
    elim (Bool-cases (is_spoken settings item && not (has k keys))) [
      | inl e ↦
          let n = other_key key k keys h (not_had (is_spoken settings item) (has k keys) e) in
          let there = has-cons key k keys h in
          let o = emits-other key sequence item out n in
          elim (Bool-cases (leb settings.max_queue_items (length out'))) [
            | inl f ↦ rw (plan_items, e, f) (there, o)
            | inr f ↦
                let rest = plan_items-keeps settings sequence items (k ∷ keys) out' key there in
                rw (plan_items, e, f) (rest.0, rest.1 ∙ o)
          ]
      | inr e ↦ rw (plan_items, e) (plan_items-keeps settings sequence items keys out key h)
    ]

has_self : (key k : Text) (keys : List Text) → same key k ≡ true → has key (k ∷ keys) ≡ true
unfolding has
has_self key k keys s = ground arith

key_sequence :
    (sequence : ℕ) (item : SubtitleLineItem) (key : Text)
    → sequence < 2 ^ 64
    → same key (key_of sequence item) ≡ true
    → sequence_from_speech_key key ≡ some sequence
unfolding key_of
key_sequence sequence item key bound s =
    ap sequence_from_speech_key (same-eq key (key_of sequence item) s)
    ∙ sequence_from-speech_key sequence item.kind (or_default [] item.slot_id) (trim item.text)
        bound

-- What has been planned of a payload is among the keys, with the sequence of the payload.
plan_items-notes :
    (settings : TtsSpeechSettings) (sequence : ℕ) (items : List SubtitleLineItem) (keys : List Text)
    (out : List SpeechQueueItem) (key : Text)
    → sequence < 2 ^ 64
    → emits key out ≡ false
    → emits key (plan_items settings sequence items keys out).1 ≡ true
    → (has key (plan_items settings sequence items keys out).0 ≡ true)
      × (sequence_from_speech_key key ≡ some sequence)
unfolding plan_items
plan_items-notes settings sequence [] keys out key bound none_yet =
    λ h. absurd (grind (arith, none_yet, h))
plan_items-notes settings sequence (item ∷ items) keys out key bound none_yet =
    let k = key_of sequence item in
    let out' = out ++ speech_item sequence item ∷ [] in
    elim (Bool-cases (is_spoken settings item && not (has k keys))) [
      | inr e ↦
          rw (plan_items, e) (plan_items-notes settings sequence items keys out key bound none_yet)
      | inl e ↦ elim (Bool-cases (same key k)) [
        | inl s ↦
            let there = has_self key k keys s in
            let found = key_sequence sequence item key bound s in
            elim (Bool-cases (leb settings.max_queue_items (length out'))) [
              | inl f ↦ rw (plan_items, e, f) (λ h. (there, found))
              | inr f ↦
                  rw (plan_items, e, f)
                    (λ h. (
                      (plan_items-keeps settings sequence items (k ∷ keys) out' key there).0,
                      found,
                    ))
            ]
        | inr s ↦ elim (Bool-cases (leb settings.max_queue_items (length out'))) [
          | inl f ↦
              rw (plan_items, e, f)
                (λ h. absurd (grind (arith, h, none_yet, emits-other key sequence item out s)))
          | inr f ↦
              rw (plan_items, e, f)
                (plan_items-notes settings sequence items (k ∷ keys) out' key bound
                  (emits-other key sequence item out s ∙ none_yet))
        ]
      ]
    ]

prune-keeps :
    (n : ℕ) (planner : SubtitleSpeechPlanner) (key : Text) (sequence : ℕ)
    → has key planner.spoken_keys ≡ true
    → sequence_from_speech_key key ≡ some sequence
    → n ≤ sequence + sequence_window
    → planner.max_sequence_seen ≤ sequence + sequence_window
    → (has key (maybe_prune_spoken_keys n planner).spoken_keys ≡ true)
      × ((maybe_prune_spoken_keys n planner).max_sequence_seen ≤ sequence + sequence_window)
unfolding maybe_prune_spoken_keys
prune-keeps n planner key sequence h e a b =
    let cutoff = max n planner.max_sequence_seen - sequence_window in
    let p = λ (k : Text). is_recent cutoff (sequence_from_speech_key k) in
    (
      if_both (λ keys. has key keys ≡ true)
          (not (ltb spoken_keys_max (length planner.spoken_keys)) && (cutoff == 0))
          planner.spoken_keys (keep p planner.spoken_keys) h
          (has-keep p key planner.spoken_keys h (rw (e) (ground arith))),
      omega arith,
    )

-- A key of this sequence that is kept, while no payload is further ahead than the window.
IsKept : Text → ℕ → SubtitleSpeechPlanner → Type 0
IsKept key sequence planner =
    (has key planner.spoken_keys ≡ true) × (planner.max_sequence_seen ≤ sequence + sequence_window)

plan-silent :
    (settings : TtsSpeechSettings) (payload : SubtitlePayloadEvent)
    (planner : SubtitleSpeechPlanner) (key : Text) (sequence : ℕ)
    → IsKept key sequence planner
    → sequence_from_speech_key key ≡ some sequence
    → payload.sequence ≤ sequence + sequence_window
    → IsKept key sequence (plan settings payload planner).0
      × (emits key (plan settings payload planner).1 ≡ false)
unfolding plan IsKept
plan-silent settings payload planner key sequence (h, b) e le =
    let items = payload.visible_items in
    let planned = plan_items settings payload.sequence items planner.spoken_keys [] in
    let k = plan_items-keeps settings payload.sequence items planner.spoken_keys [] key h in
    if_both
      (λ (r : SubtitleSpeechPlanner × List SpeechQueueItem).
        IsKept key sequence r.0 × (emits key r.1 ≡ false))
      (not (is_completed_only payload.lifecycle_state) || (payload.sequence == 0)) (planner, []) _
      ((h, b), refl)
      (
        prune-keeps payload.sequence (record planner { spoken_keys = planned.0 }) key sequence k.0 e
            le b,
        k.1,
      )

-- A call that leaves the key of the sequence alone: a payload that is no further ahead than the window,
-- or a release of other keys.
unfoldable pub Spares : Text → ℕ → PlannerCall → Type 0
unfolding has
Spares key sequence (planned settings payload) = payload.sequence ≤ sequence + sequence_window
Spares key sequence (released keys) = has key keys ≡ false
Spares key sequence restarted = ⊥

release-keeps :
    (key : Text) (sequence : ℕ) (keys : List Text) (planner : SubtitleSpeechPlanner)
    → IsKept key sequence planner
    → has key keys ≡ false
    → IsKept key sequence (release_dedupe_keys keys planner)
unfolding release_dedupe_keys IsKept
release-keeps key sequence keys planner (h, b) e =
    (has-keep (λ k. not (has k keys)) key planner.spoken_keys h (ap not e), b)

serve_planner-silent :
    (calls : List PlannerCall) (planner : SubtitleSpeechPlanner) (key : Text) (sequence : ℕ)
    → IsKept key sequence planner
    → sequence_from_speech_key key ≡ some sequence
    → All (Spares key sequence) calls
    → emits key (serve_planner calls planner).1 ≡ false
unfolding serve_planner Spares
serve_planner-silent [] planner key sequence h e w = refl
serve_planner-silent (planned settings payload ∷ calls) planner key sequence h e (le, w) =
    let (kept, quiet) = plan-silent settings payload planner key sequence h e le in
    let one = plan settings payload planner in
    let rest = serve_planner-silent calls one.0 key sequence kept e w in
    emits-append key one.1 (serve_planner calls one.0).1 ∙ ground (arith, quiet, rest)
serve_planner-silent (released keys ∷ calls) planner key sequence h e (other, w) =
    serve_planner-silent calls (release_dedupe_keys keys planner) key sequence
      (release-keeps key sequence keys planner h other) e w
serve_planner-silent (restarted ∷ calls) planner key sequence h e (never, w) = absurd never

plan-notes :
    (settings : TtsSpeechSettings) (payload : SubtitlePayloadEvent)
    (planner : SubtitleSpeechPlanner) (key : Text)
    → payload.sequence < 2 ^ 64
    → planner.max_sequence_seen ≤ payload.sequence + sequence_window
    → emits key (plan settings payload planner).1 ≡ true
    → IsKept key payload.sequence (plan settings payload planner).0
      × (sequence_from_speech_key key ≡ some payload.sequence)
unfolding plan IsKept
plan-notes settings payload planner key bound le =
    let items = payload.visible_items in
    let planned = plan_items settings payload.sequence items planner.spoken_keys [] in
    if_both
      (λ (r : SubtitleSpeechPlanner × List SpeechQueueItem).
        emits key r.1 ≡ true
        → IsKept key payload.sequence r.0 × (sequence_from_speech_key key ≡ some payload.sequence))
      (not (is_completed_only payload.lifecycle_state) || (payload.sequence == 0)) (planner, []) _
      (λ h. absurd (grind (arith, h)))
      (λ h.
        let (there, found) =
          plan_items-notes settings payload.sequence items planner.spoken_keys [] key bound refl
            h in
        (
          prune-keeps payload.sequence (record planner { spoken_keys = planned.0 }) key
              payload.sequence there found (omega arith) le,
          found,
        ))

-- A line that has been planned for speech is not planned again by any later calls, whatever their
-- settings, as long as no payload is more than 384 sequences ahead of its own, nor has been before,
-- its sequence is a `u64`, its key is not released, and the planner is not reset.
pub plan-once :
    (settings : TtsSpeechSettings) (payload : SubtitlePayloadEvent)
    (planner : SubtitleSpeechPlanner) (key : Text) (later : List PlannerCall)
    → payload.sequence < 2 ^ 64
    → planner.max_sequence_seen ≤ payload.sequence + sequence_window
    → All (Spares key payload.sequence) later
    → emits key (plan settings payload planner).1 ≡ true
    → emits key (serve_planner later (plan settings payload planner).0).1 ≡ false
plan-once settings payload planner key later bound le w h =
    let (kept, found) = plan-notes settings payload planner key bound le h in
    serve_planner-silent later (plan settings payload planner).0 key payload.sequence kept found w
