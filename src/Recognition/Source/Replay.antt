-- ===== src/Recognition/Source/Replay.antt =====
-- crates/voicesub-runtime/src/browser_speech_source.rs: messages of the worker that come twice, or late.
use stream_sub_translator.Common.{
  ℕ, ◌≤◌, ltb, ◌≡◌, refl, sym, ap, ◌∙◌, subst, inl, inr, Bool, true, false, not, if◌then◌else◌,
  Option, none, some, List, [], ◌∷◌, Text, Text-discrete, lookup-insert, lookup-insert_self,
  Bool-cases, if_both, arith, ite,
}
use stream_sub_translator.Events.{TranscriptEvent}
use stream_sub_translator.Recognition.Segments.{trimmed}
use stream_sub_translator.Recognition.Source.{
  IngestedAsrUpdate, BrowserSpeechSource, Guarded, passed, dropped, note_stale_worker_event_ignored,
  guard_session, guard_generation, guard_sequence, and_then, guard, is_other, is_replayed, mark_of,
  seq_key, deliver, ingest_external_asr_update, Ingest, ingest_one, ingest_all,
}
use stream_sub_translator.Recognition.Source.Order.{held}

-- A mark that is at least `n`.
abbrev Reaches : ℕ → Option ℕ → Type 0
Reaches n none = ⊥
Reaches n (some m) = n ≤ m

-- The key of an update's watermark.
abbrev pub key_of : IngestedAsrUpdate → Text
key_of u = seq_key (trimmed u.session_id) u.generation_id

session-mark :
    (key : Text) (id : Option Text) (s : BrowserSpeechSource)
    → mark_of key (held (guard_session id s)) ≡ mark_of key s
unfolding guard_session note_stale_worker_event_ignored mark_of
session-mark key none s = refl
session-mark key (some id) s =
    if_both (λ g. mark_of key (held g) ≡ mark_of key s) (is_other id s.active_session_id) _ _ refl
      refl

generation-mark :
    (key : Text) (n : ℕ) (s : BrowserSpeechSource)
    → mark_of key (held (guard_generation n s)) ≡ mark_of key s
unfolding guard_generation note_stale_worker_event_ignored mark_of
generation-mark key n s =
    if_both (λ (g : Guarded). mark_of key (held g) ≡ mark_of key s) (ltb 0 n) _ _
      (if_both (λ (g : Guarded). mark_of key (held g) ≡ mark_of key s)
        (ltb n s.active_generation_id) _ _ refl refl)
      refl

raised :
    (key other : Text) (m n : ℕ) (o : Option ℕ) (d : Dec (other ≡ key))
    → (other ≡ key → n ≤ m)
    → Reaches n o
    → Reaches n (ite d (some m) o)
raised key other m n o (yes e) k h = k e
raised key other m n o (no e) k h = h

replayed-le : (m n : ℕ) (o : Option ℕ) → is_replayed m o ≡ false → Reaches n o → n ≤ m
unfolding is_replayed
replayed-le m n none e h = absurd h
replayed-le m n (some k) e h = ground arith

Reaches-is_replayed : (m n : ℕ) (o : Option ℕ) → m ≤ n → Reaches n o → is_replayed m o ≡ true
unfolding is_replayed
Reaches-is_replayed m n none le h = absurd h
Reaches-is_replayed m n (some k) le h = ground arith

-- A mark is only ever raised.
sequence-Reaches :
    (key other : Text) (o : Option ℕ) (n : ℕ) (s : BrowserSpeechSource)
    → Reaches n (mark_of key s)
    → Reaches n (mark_of key (held (guard_sequence other o s)))
unfolding guard_sequence mark_of
sequence-Reaches key other none n s h = h
sequence-Reaches key other (some m) n s h = elim (Bool-cases (is_replayed m (mark_of other s))) [
  | inl e ↦ rw (guard_sequence, e) h
  | inr e ↦
      rw (guard_sequence, e)
        (subst (Reaches n) (sym (lookup-insert Text-discrete other key m s.sequence_watermark)) (
          raised key other m n (mark_of key s) (Text-discrete other key)
            (λ p.
              replayed-le m n (mark_of other s) e (subst (λ k. Reaches n (mark_of k s)) (sym p) h))
            h))
]

module _ (key : Text) (n : ℕ) where
  Marked : BrowserSpeechSource → Type 0
  Marked s = Reaches n (mark_of key s)

  and_then-Marked :
      (g : Guarded) (next : BrowserSpeechSource → Guarded)
      → Marked (held g)
      → ((s : BrowserSpeechSource) → Marked s → Marked (held (next s)))
      → Marked (held (and_then g next))
  and_then-Marked (passed s) next h k = k s h
  and_then-Marked (dropped s) next h k = h

  session-Marked :
      (id : Option Text) (s : BrowserSpeechSource) → Marked s → Marked (held (guard_session id s))
  unfolding Marked
  session-Marked id s h = subst (Reaches n) (sym (session-mark key id s)) h

  generation-Marked :
      (g : ℕ) (s : BrowserSpeechSource) → Marked s → Marked (held (guard_generation g s))
  unfolding Marked
  generation-Marked g s h = subst (Reaches n) (sym (generation-mark key g s)) h

  guard-Marked :
      (u : IngestedAsrUpdate) (s : BrowserSpeechSource) → Marked s → Marked (held (guard u s))
  unfolding guard Marked
  guard-Marked u s h =
      let id = trimmed u.session_id in
      and_then-Marked (guard_session id s) _ (session-Marked id s h) (λ t k.
        and_then-Marked (guard_generation u.generation_id t) _
          (generation-Marked u.generation_id t k)
          (λ v l. sequence-Reaches key (key_of u) u.worker_message_sequence n v l))

  deliver-mark :
      (is_active : Bool) (configured : Option Text) (u : IngestedAsrUpdate) (g : Guarded)
      → mark_of key (deliver is_active configured u g).0 ≡ mark_of key (held g)
  unfolding deliver mark_of
  deliver-mark is_active configured u (passed s) = refl
  deliver-mark is_active configured u (dropped s) = refl

  ingest_one-Marked : (i : Ingest) (s : BrowserSpeechSource) → Marked s → Marked (ingest_one i s).0
  unfolding ingest_one ingest_external_asr_update Marked
  ingest_one-Marked i s h =
      if_both (λ (r : BrowserSpeechSource × Option TranscriptEvent). Reaches n (mark_of key r.0))
        (not i.is_running) _ _ h
        (subst (Reaches n) (sym (deliver-mark i.is_active i.configured i.update (guard i.update s)))
          (guard-Marked i.update s h))

  ingest_all-Marked :
      (is : List Ingest) (s : BrowserSpeechSource) → Marked s → Marked (ingest_all is s).0
  unfolding ingest_all
  ingest_all-Marked [] s h = h
  ingest_all-Marked (i ∷ is) s h = ingest_all-Marked is (ingest_one i s).0 (ingest_one-Marked i s h)

  -- What has passed is marked.
  PassedMarked : Guarded → Type 0
  PassedMarked (passed s) = Marked s
  PassedMarked (dropped s) = Unit

  and_then-PassedMarked :
      (g : Guarded) (next : BrowserSpeechSource → Guarded)
      → ((s : BrowserSpeechSource) → PassedMarked (next s))
      → PassedMarked (and_then g next)
  unfolding PassedMarked
  and_then-PassedMarked (passed s) next k = k s
  and_then-PassedMarked (dropped s) next k = tt

  sequence-PassedMarked : (s : BrowserSpeechSource) → PassedMarked (guard_sequence key (some n) s)
  unfolding guard_sequence PassedMarked Marked mark_of
  sequence-PassedMarked s = if_both PassedMarked (is_replayed n (mark_of key s)) _ _ tt (
      subst (Reaches n) (sym (lookup-insert_self Text-discrete key n s.sequence_watermark))
        (omega arith))

  delivered-Marked :
      (is_active : Bool) (configured : Option Text) (u : IngestedAsrUpdate) (g : Guarded)
      (event : TranscriptEvent)
      → PassedMarked g
      → (deliver is_active configured u g).1 ≡ some event
      → Marked (deliver is_active configured u g).0
  unfolding deliver PassedMarked Marked mark_of
  delivered-Marked is_active configured u (passed s) event h e = h
  delivered-Marked is_active configured u (dropped s) event h e = absurd (grind (arith, e))

IsDropped : Guarded → Type 0
IsDropped (passed s) = ⊥
IsDropped (dropped s) = Unit

guard-PassedMarked :
    (u : IngestedAsrUpdate) (m : ℕ) (s : BrowserSpeechSource)
    → u.worker_message_sequence ≡ some m
    → PassedMarked (key_of u) m (guard u s)
unfolding guard
guard-PassedMarked u m s e =
    let id = trimmed u.session_id in
    let key = key_of u in
    and_then-PassedMarked key m (guard_session id s) _ (λ t.
      and_then-PassedMarked key m (guard_generation u.generation_id t) _ (λ v.
        subst (λ o. PassedMarked key m (guard_sequence key o v)) (sym e)
          (sequence-PassedMarked key m v)))

-- A guarded update is dropped if the guards before it leave the mark, and the last one drops it.
and_then-IsDropped :
    (key : Text) (n : ℕ) (g : Guarded) (next : BrowserSpeechSource → Guarded)
    → Marked key n (held g)
    → ((s : BrowserSpeechSource) → Marked key n s → IsDropped (next s))
    → IsDropped (and_then g next)
unfolding IsDropped
and_then-IsDropped key n (passed s) next h k = k s h
and_then-IsDropped key n (dropped s) next h k = tt

guard-IsDropped :
    (u : IngestedAsrUpdate) (m n : ℕ) (s : BrowserSpeechSource)
    → u.worker_message_sequence ≡ some m
    → m ≤ n
    → Marked (key_of u) n s
    → IsDropped (guard u s)
unfolding guard IsDropped guard_sequence Marked
guard-IsDropped u m n s e le h =
    let id = trimmed u.session_id in
    let key = key_of u in
    and_then-IsDropped key n (guard_session id s) _ (session-Marked key n id s h) (λ t k.
      and_then-IsDropped key n (guard_generation u.generation_id t) _
        (generation-Marked key n u.generation_id t k)
        (λ v l.
          subst (λ o. IsDropped (guard_sequence key o v)) (sym e)
            (rw (guard_sequence, Reaches-is_replayed m n (mark_of key v) le l) tt)))

deliver-IsDropped :
    (is_active : Bool) (configured : Option Text) (u : IngestedAsrUpdate) (g : Guarded)
    → IsDropped g
    → (deliver is_active configured u g).1 ≡ none
unfolding deliver IsDropped
deliver-IsDropped is_active configured u (passed s) h = absurd h
deliver-IsDropped is_active configured u (dropped s) h = refl

one-Marked :
    (i : Ingest) (source : BrowserSpeechSource) (m : ℕ) (event : TranscriptEvent)
    → i.update.worker_message_sequence ≡ some m
    → (ingest_one i source).1 ≡ some event
    → Marked (key_of i.update) m (ingest_one i source).0
unfolding ingest_one ingest_external_asr_update
one-Marked i source m event e h = elim (Bool-cases i.is_running) [
  | inl r ↦
      subst
        (λ b.
          (if not b
              then (source, none)
              else deliver i.is_active i.configured i.update (guard i.update source)).1
            ≡ some event
          → Marked (key_of i.update) m
              (if not b
                then (source, none)
                else deliver i.is_active i.configured i.update (guard i.update source)).0)
        (sym r)
        (delivered-Marked (key_of i.update) m i.is_active i.configured i.update
          (guard i.update source) event (guard-PassedMarked i.update m source e))
        h
  | inr r ↦ absurd (grind (arith, r, h))
]

-- Once an update that has a message sequence has given an event, no update of the same session and
-- generation whose message sequence is not larger gives one, whatever other updates come between
-- them. A start or a stop of the source, which clears its marks, is not among them.
pub ingest-no_replay :
    (i j : Ingest) (is : List Ingest) (source : BrowserSpeechSource) (m n : ℕ)
    (event : TranscriptEvent)
    → i.update.worker_message_sequence ≡ some m
    → j.update.worker_message_sequence ≡ some n
    → n ≤ m
    → trimmed j.update.session_id ≡ trimmed i.update.session_id
    → j.update.generation_id ≡ i.update.generation_id
    → (ingest_one i source).1 ≡ some event
    → (ingest_one j (ingest_all is (ingest_one i source).0).0).1 ≡ none
unfolding ingest_one ingest_external_asr_update
ingest-no_replay i j is source m n event ei ej le session generation h =
    let later = (ingest_all is (ingest_one i source).0).0 in
    let key =
      ap (λ t. seq_key t j.update.generation_id) session
      ∙ ap (seq_key (trimmed i.update.session_id)) generation in
    let marked =
      ingest_all-Marked (key_of i.update) m is (ingest_one i source).0
        (one-Marked i source m event ei h) in
    if_both (λ (r : BrowserSpeechSource × Option TranscriptEvent). r.1 ≡ none) (not j.is_running) _
      _ refl
      (deliver-IsDropped j.is_active j.configured j.update (guard j.update later)
        (guard-IsDropped j.update n m later ej le (subst (λ k. Marked k m later) (sym key) marked)))
