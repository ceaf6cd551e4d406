-- ===== src/Recognition/Emission/Laws.antt =====
-- crates/voicesub-runtime/src/http/partial_emit.rs: what an emission tells of the text before it.
use stream_sub_translator.Common.{
  ℕ, ◌≤◌, ◌<◌, length, max, ◌≡◌, refl, sym, ap, subst, ◌∙◌, Bool, true, false, if◌then◌else◌,
  Option, none, some, List, [], ◌∷◌, Text, Text-discrete, same, is_empty, trim, to_ascii_lowercase,
  join, split_whitespace, split, space, All, IsWord, split_whitespace-join, split-join,
  words-IsFree, split_whitespace-IsWord, lookup-insert_self, lookup-insert, lookup-remove_ne, ◌≢◌,
  if_neg, same_self, if_both, arith,
}
use stream_sub_translator.Subtitle.Settings.{or_default}
use stream_sub_translator.Recognition.Segments.{
  SegmentStateController, get_last_partial_text, get_last_partial_emit_monotonic,
  mark_partial_emitted, clear_partial_tracking_for_segment,
}
use stream_sub_translator.Recognition.Emission.{
  PartialEmitSettings, normalize_transcript_text, split_words, should_emit_char_delta, grows,
  should_emit_word_growth, should_emit_partial, should_emit, clear_segment, char_delta,
}

-- Normalised text is normal.
normalize_twice :
    (t : Text)
    → normalize_transcript_text (normalize_transcript_text t) ≡ normalize_transcript_text t
unfolding normalize_transcript_text
normalize_twice t =
    ap (join space) (split_whitespace-join (split_whitespace t) (split_whitespace-IsWord t))

join_word : (w : Text) (ws : List Text) → IsWord w → is_empty (join space (w ∷ ws)) ≡ false
unfolding join
join_word [] ws h = absurd h
join_word (c ∷ w) [] h = refl
join_word (c ∷ w) (v ∷ ws) h = refl

split_joined :
    (ws : List Text)
    → All IsWord ws
    → (if is_empty (join space ws) then [] else split 32 (join space ws)) ≡ ws
unfolding join
split_joined [] h = refl
split_joined (w ∷ ws) (hw, h) =
    rw (join_word w ws hw) (split-join 32 w ws (words-IsFree (w ∷ ws) (hw, h)))

-- `split_words`, which normalises a text and splits it at the spaces, gives its words.
split_words_lem : (t : Text) → split_words t ≡ split_whitespace t
unfolding split_words normalize_transcript_text
split_words_lem t = split_joined (split_whitespace t) (split_whitespace-IsWord t)

last-marked :
    (now : ℕ) (id text : Text) (state : SegmentStateController)
    → get_last_partial_text id (mark_partial_emitted now id text state)
      ≡ normalize_transcript_text text
unfolding get_last_partial_text mark_partial_emitted normalize_transcript_text
last-marked now id text state = ap (or_default []) (
    lookup-insert_self Text-discrete id (join space (split_whitespace text))
      state.last_partial_text_by_segment)

not_again :
    (settings : PartialEmitSettings) (new_text previous_text : Text) (at : Option ℕ) (now : ℕ)
    → normalize_transcript_text new_text ≡ normalize_transcript_text previous_text
    → should_emit_partial settings new_text previous_text at now ≡ false
unfolding should_emit_partial
not_again settings new_text previous_text at now e =
    rw (should_emit_partial, e, same_self (normalize_transcript_text previous_text))
      (if_both (λ b. b ≡ false) (is_empty (normalize_transcript_text previous_text)) false false
        refl refl)

should_emit-decided :
    (settings : PartialEmitSettings) (now : ℕ) (id text : Text) (state : SegmentStateController)
    (b : Bool)
    → should_emit_partial settings text
        (get_last_partial_text id state)
        (get_last_partial_emit_monotonic id state)
        now
      ≡ b
    → should_emit settings now id text state
      ≡ (if b then mark_partial_emitted now id text state else state, b)
unfolding should_emit
should_emit-decided settings now id text state b e =
    ap (λ c. (if c then mark_partial_emitted now id text state else state, c)) e

-- Right after a partial has been emitted, no text of the same words is emitted for its segment.
once_marked :
    (settings : PartialEmitSettings) (now : ℕ) (id text text' : Text)
    (state : SegmentStateController)
    → get_last_partial_text id state ≡ normalize_transcript_text text
    → split_whitespace text' ≡ split_whitespace text
    → should_emit settings now id text' state ≡ (state, false)
unfolding normalize_transcript_text
once_marked settings now id text text' state kept e =
    should_emit-decided settings now id text' state false (
      not_again settings text' (get_last_partial_text id state)
        (get_last_partial_emit_monotonic id state) now
        (ap (join space) e ∙ sym (ap normalize_transcript_text kept ∙ normalize_twice text)))

-- What may happen to the segments: a text that may be emitted, and the end of a segment.
pub data EmitCall : Type 0 where
  asked : PartialEmitSettings → ℕ → Text → Text → EmitCall
  cleared : Text → EmitCall

abbrev pub segment_of : EmitCall → Text
segment_of (asked settings now id text) = id
segment_of (cleared id) = id

unfoldable pub emit_calls : List EmitCall → SegmentStateController → SegmentStateController
unfolding should_emit clear_segment
emit_calls [] state = state
emit_calls (asked settings now id text ∷ calls) state =
    emit_calls calls (should_emit settings now id text state).0
emit_calls (cleared id ∷ calls) state = emit_calls calls (clear_segment id state)

module _ (id other : Text) (ne : other ≢ id) where
  last-marked_ne :
      (now : ℕ) (text : Text) (state : SegmentStateController)
      → get_last_partial_text id (mark_partial_emitted now other text state)
        ≡ get_last_partial_text id state
  unfolding get_last_partial_text mark_partial_emitted
  last-marked_ne now text state = ap (or_default []) (
      lookup-insert Text-discrete other id (join space (split_whitespace text))
        state.last_partial_text_by_segment
      ∙ if_neg (Text-discrete other id) ne _ _)

  last-asked :
      (settings : PartialEmitSettings) (now : ℕ) (text : Text) (state : SegmentStateController)
      → get_last_partial_text id (should_emit settings now other text state).0
        ≡ get_last_partial_text id state
  unfolding should_emit
  last-asked settings now text state =
      if_both (λ s. get_last_partial_text id s ≡ get_last_partial_text id state)
        (should_emit_partial settings text (get_last_partial_text other state)
          (get_last_partial_emit_monotonic other state) now)
        (mark_partial_emitted now other text state) state (last-marked_ne now text state) refl

  last-cleared :
      (state : SegmentStateController)
      → get_last_partial_text id (clear_segment other state) ≡ get_last_partial_text id state
  unfolding clear_segment clear_partial_tracking_for_segment get_last_partial_text
  last-cleared state =
      if_both (λ s. get_last_partial_text id s ≡ get_last_partial_text id state)
        (is_empty (trim other)) state _ refl
        (ap (or_default [])
          (lookup-remove_ne Text-discrete other id state.last_partial_text_by_segment ne))

last-emit_calls :
    (id : Text) (calls : List EmitCall) (state : SegmentStateController)
    → All (λ call. segment_of call ≢ id) calls
    → get_last_partial_text id (emit_calls calls state) ≡ get_last_partial_text id state
unfolding emit_calls
last-emit_calls id [] state h = refl
last-emit_calls id (asked settings now other text ∷ calls) state (ne, h) =
    last-emit_calls id calls _ h ∙ last-asked id other ne settings now text state
last-emit_calls id (cleared other ∷ calls) state (ne, h) =
    last-emit_calls id calls _ h ∙ last-cleared id other ne state

-- After a partial has been emitted, and after any calls for other segments, be they texts or the
-- ends of these segments, a text of the same words is not emitted for its segment, at whatever time
-- and under whatever settings, and the state stays as it is.
pub should_emit_once :
    (settings settings' : PartialEmitSettings) (now now' : ℕ) (id text text' : Text)
    (calls : List EmitCall) (state : SegmentStateController)
    → (should_emit settings now id text state).1 ≡ true
    → All (λ call. segment_of call ≢ id) calls
    → split_whitespace text' ≡ split_whitespace text
    → should_emit settings' now' id text'
        (emit_calls calls (should_emit settings now id text state).0)
      ≡ (emit_calls calls (should_emit settings now id text state).0, false)
unfolding should_emit
should_emit_once settings settings' now now' id text text' calls state h others e =
    let emitted = sym (
      ap (λ (r : SegmentStateController × Bool). r.0)
        (should_emit-decided settings now id text state true h)) in
    once_marked settings' now' id text text'
      (emit_calls calls (should_emit settings now id text state).0)
      (last-emit_calls id calls (should_emit settings now id text state).0 others
        ∙ subst (λ s. get_last_partial_text id s ≡ normalize_transcript_text text) emitted
            (last-marked now id text state))
      e

grows-length :
    (new_words prev_words : List Text) (n : ℕ)
    → grows new_words prev_words n ≡ true
    → length prev_words ≤ length new_words
unfolding grows
grows-length new_words prev_words n h = ground arith

normal_words : (t : Text) → split_words (normalize_transcript_text t) ≡ split_whitespace t
unfolding normalize_transcript_text
normal_words t =
    split_words_lem (normalize_transcript_text t)
    ∙ split_whitespace-join (split_whitespace t) (split_whitespace-IsWord t)

last_case :
    (e s m a b : Bool)
    → (if e then false else if s then false else if m then a else b) ≡ true
    → m ≡ false
    → b ≡ true
last_case e s m a b h f = ground arith

words-grow :
    (settings : PartialEmitSettings) (new_text previous_text : Text) (at : Option ℕ) (now : ℕ)
    → same (to_ascii_lowercase (trim settings.partial_emit_mode)) char_delta ≡ false
    → should_emit_partial settings new_text previous_text at now ≡ true
    → length (split_whitespace previous_text) ≤ length (split_whitespace new_text)
unfolding should_emit_partial should_emit_word_growth
words-grow settings new_text previous_text at now mode h =
    let new_norm = normalize_transcript_text new_text in
    let prev_norm = normalize_transcript_text previous_text in
    let n = max settings.partial_min_new_words 1 in
    let g = grows-length (split_words new_norm) (split_words prev_norm) n (
      last_case (is_empty new_norm) (same new_norm prev_norm)
        (same (to_ascii_lowercase (trim settings.partial_emit_mode)) char_delta)
        (should_emit_char_delta new_norm prev_norm settings.partial_min_delta_chars
          settings.partial_coalescing_ms at now)
        (should_emit_word_growth new_norm prev_norm n) h mode) in
    omega (arith, g, ap length (normal_words new_text), ap length (normal_words previous_text))

-- By word growth, a text is emitted only if it has no fewer words than the text that was emitted
-- before it for the segment, and it is this text, normalised, that is kept for the next one.
pub should_emit-grows :
    (settings : PartialEmitSettings) (now : ℕ) (id text : Text) (state : SegmentStateController)
    → same (to_ascii_lowercase (trim settings.partial_emit_mode)) char_delta ≡ false
    → (should_emit settings now id text state).1 ≡ true
    → (length (split_whitespace (get_last_partial_text id state)) ≤ length (split_whitespace text))
      × (get_last_partial_text id (should_emit settings now id text state).0
          ≡ normalize_transcript_text text)
unfolding should_emit should_emit_partial should_emit_word_growth
should_emit-grows settings now id text state mode h = (
  words-grow settings text (get_last_partial_text id state)
      (get_last_partial_emit_monotonic id state) now mode h,
  rw (should_emit, h) (last-marked now id text state),
)

-- In `char_delta` mode, with a least difference and no coalescing time, a text that has got
-- shorter is not emitted, however much shorter it is.
char_delta_shrunk :
    (new_norm prev_norm : Text) (n : ℕ) (at : Option ℕ) (now : ℕ)
    → is_empty prev_norm ≡ false
    → 0 < n
    → length new_norm ≤ length prev_norm
    → should_emit_char_delta new_norm prev_norm n 0 at now ≡ false
unfolding should_emit_char_delta
char_delta_shrunk new_norm prev_norm n none now e pos h = ground arith
char_delta_shrunk new_norm prev_norm n (some a) now e pos h = ground arith
