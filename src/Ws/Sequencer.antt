-- ===== src/Ws/Sequencer.antt =====
-- crates/voicesub-ws/src/event_sequence.rs: the numbers and the marks that a payload gets. The JSON values are
-- an argument, with the two kinds of them that the code makes; a payload is an object or another value.
use stream_sub_translator.Common.{
  ℕ, ◌+◌, ◌-◌, ◌^◌, ◌<◌, min, length, suc, ◌≡◌, none, some, List, [], ◌∷◌, ap, ◌∙◌, subst, Text,
  Text-discrete, codes, lookup, insert, lookup-insert_self, arith,
}

pub record EventSequencer : Type 0 where
  pub global_sequence : ℕ
  pub sequence_by_type : List (Text × ℕ)

abbrev pub new_sequencer : EventSequencer
new_sequencer = record { global_sequence = 0; sequence_by_type = [] }

pub data Payload (V : Type 0) : Type 0 where
  object : List (Text × V) → Payload V
  other_value : V → Payload V

-- `or_insert_with`, and the insertion where `contains_key` is false.
unfoldable set_absent : {V : Type 0} → Text → V → List (Text × V) → List (Text × V)
unfolding lookup insert
set_absent key value fields = elim (lookup Text-discrete key fields) [
  | none ↦ insert Text-discrete key value fields
  | some _ ↦ fields
]

-- `saturating_add(1)`.
abbrev pub next_of : ℕ → ℕ
next_of n = min (n + 1) (2 ^ 64 - 1)

unfoldable pub reset_broadcast_state : EventSequencer → EventSequencer
reset_broadcast_state s = record s { sequence_by_type = [] }

module _ {V : Type 0} (json_text : Text → V) (json_number : ℕ → V) where
  unfoldable pub mark : Text → ℕ → ℕ → Payload V → Payload V
  unfolding set_absent insert
  mark event_type now sequence (other_value v) = other_value v
  mark event_type now sequence (object fields) =
      let typed = set_absent (codes "event_type") (json_text event_type) fields in
      let dated = set_absent (codes "created_at_ms") (json_number now) typed in
      object (insert Text-discrete (codes "event_sequence") (json_number sequence) dated)

  unfoldable pub enrich : Text → ℕ → Payload V → EventSequencer → EventSequencer × Payload V
  unfolding insert mark
  enrich event_type now payload s =
      let sequence = next_of s.global_sequence in
      (
        record {
          global_sequence = sequence;
          sequence_by_type = insert Text-discrete event_type sequence s.sequence_by_type;
        },
        mark event_type now sequence payload,
      )

  -- The calls of a sequencer: a payload with its type and the time of the clock, or the reset at a stop.
  pub data Call : Type 0 where
    enriched : Text → ℕ → Payload V → Call
    reset : Call

  unfoldable pub serve_calls : List Call → EventSequencer → List (Payload V)
  unfolding enrich reset_broadcast_state
  serve_calls [] s = []
  serve_calls (enriched event_type now payload ∷ calls) s =
      let (after, answer) = enrich event_type now payload s in answer ∷ serve_calls calls after
  serve_calls (reset ∷ calls) s = serve_calls calls (reset_broadcast_state s)

  -- The payloads that are objects have as `event_sequence` the number of their place, from n + 1 on.
  unfoldable pub AreNumbered : ℕ → List (Payload V) → Type 0
  unfolding lookup
  AreNumbered n [] = Unit
  AreNumbered n (other_value v ∷ payloads) = AreNumbered (n + 1) payloads
  AreNumbered n (object fields ∷ payloads) =
      (lookup Text-discrete (codes "event_sequence") fields ≡ some (json_number (n + 1)))
      × AreNumbered (n + 1) payloads

  next_of_small : (n k : ℕ) → n + suc k < 2 ^ 64 → next_of n ≡ n + 1
  next_of_small n k h = ground arith

  next_of_room : (n k : ℕ) → n + suc k < 2 ^ 64 → next_of n + k < 2 ^ 64
  next_of_room n k h = ground arith

  -- As long as the calls do not exceed the 64 bits of the counter, the payloads that are objects are numbered
  -- one by one from the sequencer's number on, whatever their types and their own fields are, and a reset
  -- between them does not start the numbers again.
  pub serve_calls-AreNumbered :
      (calls : List Call) (s : EventSequencer)
      → s.global_sequence + length calls < 2 ^ 64
      → AreNumbered s.global_sequence (serve_calls calls s)
  unfolding serve_calls AreNumbered enrich mark reset_broadcast_state
  serve_calls-AreNumbered [] s h = tt
  serve_calls-AreNumbered (reset ∷ calls) s h =
      serve_calls-AreNumbered calls (reset_broadcast_state s) (omega arith)
  serve_calls-AreNumbered (enriched event_type now (other_value v) ∷ calls) s h =
      let e = next_of_small s.global_sequence (length calls) h in
      subst (λ n. AreNumbered n (serve_calls calls (enrich event_type now (other_value v) s).0)) e
        (serve_calls-AreNumbered calls (enrich event_type now (other_value v) s).0
          (next_of_room s.global_sequence (length calls) h))
  serve_calls-AreNumbered (enriched event_type now (object fields) ∷ calls) s h =
      let e = next_of_small s.global_sequence (length calls) h in
      (
        lookup-insert_self Text-discrete (codes "event_sequence")
              (json_number (next_of s.global_sequence)) _
            ∙ ap (λ n. some (json_number n)) e,
        subst (λ n. AreNumbered n (serve_calls calls (enrich event_type now (object fields) s).0)) e
            (serve_calls-AreNumbered calls (enrich event_type now (object fields) s).0
              (next_of_room s.global_sequence (length calls) h)),
      )
