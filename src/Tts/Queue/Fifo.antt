-- ===== src/Tts/Queue/Fifo.antt =====
-- crates/voicesub-tts/src/queue.rs: the order in which the items leave the queue, and its length.
use stream_sub_translator.Common.{
  append_assoc, append-nil, ℕ, ◌+◌, ◌/◌, ◌≤◌, ◌<◌, ltb, length, length-append, max, ◌≡◌, refl, sym,
  ap, ◌∙◌, inl, inr, Bool, true, false, Option, none, some, List, [], ◌∷◌, ◌++◌, Text, Bool-cases,
  if_both, arith,
}
use stream_sub_translator.Tts.Queue.{
  SpeechQueueItem, SpeechQueueState, idle, speaking, paused, SpeechQueue, adaptive_low_water,
  drop_oldest, adaptive_drop_for_enqueue, enqueue_with_cap, clear_queue, pop_next, begin_next,
  force_idle, mark_finished, pause, resume,
}

-- The calls that a queue serves.
pub data Operation : Type 0 where
  enqueued : SpeechQueueItem → ℕ → Operation
  begun : Operation
  finished : Text → Operation
  emptied : Operation
  forced : Operation
  halted : Operation
  resumed : Operation

abbrev pub taken : Option SpeechQueueItem → List SpeechQueueItem
taken none = []
taken (some item) = item ∷ []

-- The queue after a call, and the items that left it by the call.
unfoldable pub serve : Operation → SpeechQueue → SpeechQueue × List SpeechQueueItem
unfolding enqueue_with_cap begin_next mark_finished clear_queue force_idle pause resume
serve (enqueued item max_items) queue = enqueue_with_cap item max_items queue
serve begun queue = ((begin_next queue).0, taken (begin_next queue).1)
serve (finished id) queue = ((mark_finished id queue).0, [])
serve emptied queue = (clear_queue queue, queue.items)
serve forced queue = (force_idle queue, [])
serve halted queue = (pause queue, [])
serve resumed queue = (resume queue, [])

unfoldable pub serve_all : List Operation → SpeechQueue → SpeechQueue × List SpeechQueueItem
unfolding serve
serve_all [] queue = (queue, [])
serve_all (o ∷ os) queue =
    let served = serve o queue in let rest = serve_all os served.0 in (rest.0, served.1 ++ rest.1)

abbrev pub arrivals : List Operation → List SpeechQueueItem
arrivals [] = []
arrivals (enqueued item max_items ∷ os) = item ∷ arrivals os
arrivals (o ∷ os) = arrivals os

drop_oldest_parts :
    (low : ℕ) (items : List SpeechQueueItem)
    → (drop_oldest low items).1 ++ (drop_oldest low items).0 ≡ items
unfolding drop_oldest
drop_oldest_parts low [] = refl
drop_oldest_parts low (item ∷ items) = elim (Bool-cases (ltb low (length (item ∷ items)))) [
  | inl e ↦ rw (e) (ap (◌∷◌ item) (drop_oldest_parts low items))
  | inr e ↦ rw (e) refl
]

drop_oldest-length :
    (low : ℕ) (items : List SpeechQueueItem) → length (drop_oldest low items).0 ≤ low
unfolding drop_oldest
drop_oldest-length low [] = omega arith
drop_oldest-length low (item ∷ items) = ground (arith, drop_oldest-length low items)

adaptive_drop_parts :
    (cap : ℕ) (items : List SpeechQueueItem)
    → (adaptive_drop_for_enqueue cap items).1 ++ (adaptive_drop_for_enqueue cap items).0 ≡ items
unfolding adaptive_drop_for_enqueue
adaptive_drop_parts cap items =
    if_both (λ (p : List SpeechQueueItem × List SpeechQueueItem). p.1 ++ p.0 ≡ items)
      (ltb (length items) cap) (items, []) (drop_oldest (adaptive_low_water cap) items) refl
      (drop_oldest_parts (adaptive_low_water cap) items)

adaptive_drop-length :
    (cap : ℕ) (items : List SpeechQueueItem)
    → 0 < cap
    → length (adaptive_drop_for_enqueue cap items).0 + 1 ≤ max cap 2
unfolding adaptive_drop_for_enqueue adaptive_low_water
adaptive_drop-length cap items pos = ground (arith, drop_oldest-length (max (cap / 2) 1) items)

-- After an enqueue, whatever the queue was, it holds no more items than its bound, or two where the
-- bound is smaller.
pub enqueue-length :
    (item : SpeechQueueItem) (max_items : ℕ) (queue : SpeechQueue)
    → length (enqueue_with_cap item max_items queue).0.items ≤ max max_items 2
unfolding enqueue_with_cap
enqueue-length item max_items queue =
    let kept = (adaptive_drop_for_enqueue (max max_items 1) queue.items).0 in
    omega (
      arith,
      length-append kept (item ∷ []),
      adaptive_drop-length (max max_items 1) queue.items (omega arith),
    )

pop_next_parts :
    (queue : SpeechQueue) (items : List SpeechQueueItem)
    → queue.items ≡ items
    → taken (pop_next queue items).1 ++ (pop_next queue items).0.items ≡ queue.items
unfolding pop_next
pop_next_parts queue [] e = refl
pop_next_parts queue (item ∷ items) e = sym e

begin_next_parts :
    (queue : SpeechQueue) (state : SpeechQueueState)
    → queue.state ≡ state
    → taken (begin_next queue).1 ++ (begin_next queue).0.items ≡ queue.items
unfolding begin_next
begin_next_parts queue idle e = rw (begin_next, e) (pop_next_parts queue queue.items refl)
begin_next_parts queue speaking e = rw (begin_next, e) refl
begin_next_parts queue paused e = rw (begin_next, e) (pop_next_parts queue queue.items refl)

mark_finished-items :
    (id : Text) (queue : SpeechQueue) → (mark_finished id queue).0.items ≡ queue.items
unfolding mark_finished force_idle
mark_finished-items id queue = ground arith

serve_parts :
    (o : Operation) (queue : SpeechQueue)
    → (serve o queue).1 ++ (serve o queue).0.items ≡ queue.items ++ arrivals (o ∷ [])
unfolding serve enqueue_with_cap clear_queue force_idle pause resume
serve_parts (enqueued item max_items) queue =
    sym (
      append_assoc (adaptive_drop_for_enqueue (max max_items 1) queue.items).1
        (adaptive_drop_for_enqueue (max max_items 1) queue.items).0 (item ∷ []))
    ∙ ap (λ xs. xs ++ item ∷ []) (adaptive_drop_parts (max max_items 1) queue.items)
serve_parts begun queue = begin_next_parts queue queue.state refl ∙ sym (append-nil queue.items)
serve_parts (finished id) queue = mark_finished-items id queue ∙ sym (append-nil queue.items)
serve_parts emptied queue = refl
serve_parts forced queue = sym (append-nil queue.items)
serve_parts halted queue = ground (arith, append-nil queue.items)
serve_parts resumed queue = ground (arith, append-nil queue.items)

arrivals-cons :
    (o : Operation) (os : List Operation) → arrivals (o ∷ os) ≡ arrivals (o ∷ []) ++ arrivals os
arrivals-cons (enqueued item max_items) os = refl
arrivals-cons begun os = refl
arrivals-cons (finished id) os = refl
arrivals-cons emptied os = refl
arrivals-cons forced os = refl
arrivals-cons halted os = refl
arrivals-cons resumed os = refl

-- First in, first out: after any calls, the items that left the queue (spoken, dropped or cleared),
-- in the order in which they left, and then those that are still there, are the items that were
-- there at first and then those that came, in the order in which they came. None is lost, doubled
-- or overtaken.
pub serve_all_fifo :
    (os : List Operation) (queue : SpeechQueue)
    → (serve_all os queue).1 ++ (serve_all os queue).0.items ≡ queue.items ++ arrivals os
unfolding serve_all
serve_all_fifo [] queue = sym (append-nil queue.items)
serve_all_fifo (o ∷ os) queue =
    let next = (serve o queue).0 in
    append_assoc (serve o queue).1 (serve_all os next).1 (serve_all os next).0.items
    ∙ ap (λ xs. (serve o queue).1 ++ xs) (serve_all_fifo os next)
    ∙ sym (append_assoc (serve o queue).1 next.items (arrivals os))
    ∙ ap (λ xs. xs ++ arrivals os) (serve_parts o queue)
    ∙ append_assoc queue.items (arrivals (o ∷ [])) (arrivals os)
    ∙ ap (λ xs. queue.items ++ xs) (sym (arrivals-cons o os))

-- Something is being spoken, or paused, exactly if the queue knows its id.
abbrev pub agrees : SpeechQueueState → Option Text → Bool
agrees idle none = true
agrees idle (some id) = false
agrees state none = false
agrees state (some id) = true

abbrev pub IsConsistent : SpeechQueue → Type 0
IsConsistent queue = agrees queue.state queue.current_id ≡ true

pop_next-IsConsistent :
    (queue : SpeechQueue) (items : List SpeechQueueItem)
    → IsConsistent queue
    → IsConsistent (pop_next queue items).0
unfolding pop_next
pop_next-IsConsistent queue [] h = h
pop_next-IsConsistent queue (item ∷ items) h = refl

begin_next-IsConsistent :
    (queue : SpeechQueue) (state : SpeechQueueState)
    → queue.state ≡ state
    → IsConsistent queue
    → IsConsistent (begin_next queue).0
unfolding begin_next
begin_next-IsConsistent queue idle e h = ground (arith, pop_next-IsConsistent queue queue.items h)
begin_next-IsConsistent queue speaking e h = ground arith
begin_next-IsConsistent queue paused e h = ground (arith, pop_next-IsConsistent queue queue.items h)

mark_finished-IsConsistent :
    (id : Text) (queue : SpeechQueue) (state : SpeechQueueState)
    → queue.state ≡ state
    → IsConsistent queue
    → IsConsistent (mark_finished id queue).0
unfolding mark_finished force_idle
mark_finished-IsConsistent id queue state e h = ground arith

pause-IsConsistent : (queue : SpeechQueue) → IsConsistent queue → IsConsistent (pause queue)
unfolding pause
pause-IsConsistent queue h = ground arith

resume-IsConsistent : (queue : SpeechQueue) → IsConsistent queue → IsConsistent (resume queue)
unfolding resume
resume-IsConsistent queue h = ground arith

serve-IsConsistent :
    (o : Operation) (queue : SpeechQueue) → IsConsistent queue → IsConsistent (serve o queue).0
unfolding serve enqueue_with_cap clear_queue force_idle
serve-IsConsistent (enqueued item max_items) queue h = h
serve-IsConsistent begun queue h = begin_next-IsConsistent queue queue.state refl h
serve-IsConsistent (finished id) queue h = mark_finished-IsConsistent id queue queue.state refl h
serve-IsConsistent emptied queue h = refl
serve-IsConsistent forced queue h = refl
serve-IsConsistent halted queue h = pause-IsConsistent queue h
serve-IsConsistent resumed queue h = resume-IsConsistent queue h

-- Any calls keep the state and the current id of a queue in agreement: it is idle exactly if it has
-- no current id.
pub serve_all-IsConsistent :
    (os : List Operation) (queue : SpeechQueue)
    → IsConsistent queue
    → IsConsistent (serve_all os queue).0
unfolding serve_all
serve_all-IsConsistent [] queue h = h
serve_all-IsConsistent (o ∷ os) queue h =
    serve_all-IsConsistent os (serve o queue).0 (serve-IsConsistent o queue h)
