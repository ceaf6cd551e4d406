-- ===== src/Tts/Queue.antt =====
-- crates/voicesub-tts/src/queue.rs: the queue of one channel. `u32` and `usize` are natural numbers.
pub mod Fifo
use stream_sub_translator.Common.{
  ℕ, ◌+◌, ◌-◌, ◌/◌, ◌<◌, ltb, length, drop, max, Bool, true, false, if◌then◌else◌, Option, none,
  some, List, [], ◌∷◌, ◌++◌, Text, same,
}

pub record SpeechQueueItem : Type 0 where
  pub id : Text
  pub text : Text
  pub source : Text
  pub lang : Text
  pub dedupe_key : Option Text

pub data MarkFinishedOutcome : Type 0 where
  matched not_speaking mismatch_forced_idle : MarkFinishedOutcome

pub data SpeechQueueState : Type 0 where
  idle speaking paused : SpeechQueueState

pub record SpeechQueue : Type 0 where
  pub items : List SpeechQueueItem
  pub state : SpeechQueueState
  pub current_id : Option Text

abbrev pub empty_queue : SpeechQueue
empty_queue = record { items = []; state = idle; current_id = none }

unfoldable pub adaptive_low_water : ℕ → ℕ
adaptive_low_water cap = max (cap / 2) 1

-- The `while` loop: the items that stay and those that are dropped, from the front.
unfoldable pub drop_oldest : ℕ → List SpeechQueueItem → List SpeechQueueItem × List SpeechQueueItem
drop_oldest low_water [] = ([], [])
drop_oldest low_water (item ∷ items) =
    let rest = drop_oldest low_water items in
    if ltb low_water (length (item ∷ items)) then (rest.0, item ∷ rest.1) else (item ∷ items, [])

unfoldable pub adaptive_drop_for_enqueue :
    ℕ → List SpeechQueueItem → List SpeechQueueItem × List SpeechQueueItem
unfolding drop_oldest adaptive_low_water
adaptive_drop_for_enqueue cap items =
    if ltb (length items) cap then (items, []) else drop_oldest (adaptive_low_water cap) items

unfoldable pub enqueue_with_cap :
    SpeechQueueItem → ℕ → SpeechQueue → SpeechQueue × List SpeechQueueItem
unfolding adaptive_drop_for_enqueue
enqueue_with_cap item max_items queue =
    let parts = adaptive_drop_for_enqueue (max max_items 1) queue.items in
    (record queue { items = parts.0 ++ item ∷ [] }, parts.1)

unfoldable pub clear_queue : SpeechQueue → SpeechQueue
clear_queue queue = empty_queue

unfoldable pub pop_next : SpeechQueue → List SpeechQueueItem → SpeechQueue × Option SpeechQueueItem
pop_next queue [] = (queue, none)
pop_next queue (next ∷ items) =
    (record { items = items; state = speaking; current_id = some next.id }, some next)

unfoldable pub begin_next : SpeechQueue → SpeechQueue × Option SpeechQueueItem
unfolding pop_next
begin_next queue = elim queue.state [
  | speaking ↦ (queue, none)
  | idle ↦ pop_next queue queue.items
  | paused ↦ pop_next queue queue.items
]

unfoldable pub force_idle : SpeechQueue → SpeechQueue
force_idle queue = record queue { state = idle; current_id = none }

is_current : Text → Option Text → Bool
unfolding same
is_current id none = false
is_current id (some current) = same current id

unfoldable pub mark_finished : Text → SpeechQueue → SpeechQueue × MarkFinishedOutcome
unfolding force_idle is_current
mark_finished item_id queue = elim queue.state [
  | idle ↦ (queue, not_speaking)
  | paused ↦ (queue, not_speaking)
  | speaking ↦
      if is_current item_id queue.current_id
      then (record queue { state = idle; current_id = none }, matched)
      else (force_idle queue, mismatch_forced_idle)
]

unfoldable pub pause : SpeechQueue → SpeechQueue
pause queue = elim queue.state [
  | speaking ↦ record queue { state = paused }
  | idle ↦ queue
  | paused ↦ queue
]

unfoldable pub resume : SpeechQueue → SpeechQueue
resume queue = elim queue.state [
  | paused ↦ record queue { state = speaking }
  | idle ↦ queue
  | speaking ↦ queue
]
