-- ===== src/Tts/Channels.antt =====
-- crates/voicesub-tts/src/channel_queue.rs: the two channels, each with a queue of its own.
pub mod Independent
use stream_sub_translator.Common.{
  ℕ, Bool, true, false, if◌then◌else◌, ◌≡◌, refl, ap, ◌∙◌, ◌⊎◌, inl, inr, List, [], ◌∷◌, ◌++◌, Text,
  codes, same, length, Option, Bool-cases, if_both, arith,
}
use stream_sub_translator.Tts.Queue.{
  SpeechQueueItem, SpeechQueue, MarkFinishedOutcome, enqueue_with_cap, begin_next, mark_finished,
  clear_queue, force_idle,
}
use stream_sub_translator.Tts.Queue.Fifo.{
  Operation, enqueued, begun, finished, emptied, forced, serve, serve_all,
}

pub record DualChannelSpeechQueue : Type 0 where
  pub speech : SpeechQueue
  pub twitch : SpeechQueue

-- `Result<A, ChannelQueueError>`.
pub data ChannelResult (A : Type 0) : Type 0 where
  done : A → ChannelResult A
  unknown_channel : Text → ChannelResult A

pub data Channel : Type 0 where
  to_speech to_twitch : Channel
  to_nowhere : Channel

unfoldable pub queue_for : Text → Channel
unfolding same
queue_for channel =
    if same channel (codes "speech")
    then to_speech
    else if same channel (codes "twitch")
    then to_twitch
    else to_nowhere

-- One call of the queue of a channel, and what it answers.
unfoldable pub call_channel :
    {A : Type 0}
    → Channel
    → Text
    → (SpeechQueue → SpeechQueue × A)
    → DualChannelSpeechQueue
    → DualChannelSpeechQueue × ChannelResult A
call_channel to_speech name f queues =
    (record queues { speech = (f queues.speech).0 }, done (f queues.speech).1)
call_channel to_twitch name f queues =
    (record queues { twitch = (f queues.twitch).0 }, done (f queues.twitch).1)
call_channel to_nowhere name f queues = (queues, unknown_channel name)

unfoldable pub channel_enqueue :
    Text
    → SpeechQueueItem
    → ℕ
    → DualChannelSpeechQueue
    → DualChannelSpeechQueue × ChannelResult (ℕ × List SpeechQueueItem)
unfolding call_channel queue_for enqueue_with_cap
channel_enqueue channel item max_items = call_channel (queue_for channel) channel (λ queue.
    let pushed = enqueue_with_cap item max_items queue in
    (pushed.0, (length pushed.0.items, pushed.1)))

unfoldable pub channel_begin_next :
    Text → DualChannelSpeechQueue → DualChannelSpeechQueue × ChannelResult (Option SpeechQueueItem)
unfolding call_channel queue_for begin_next
channel_begin_next channel = call_channel (queue_for channel) channel begin_next

unfoldable pub channel_mark_finished :
    Text
    → Text
    → DualChannelSpeechQueue
    → DualChannelSpeechQueue × ChannelResult MarkFinishedOutcome
unfolding call_channel queue_for mark_finished
channel_mark_finished channel item_id =
    call_channel (queue_for channel) channel (mark_finished item_id)

unfoldable pub channel_clear :
    Text → DualChannelSpeechQueue → DualChannelSpeechQueue × ChannelResult Unit
unfolding call_channel queue_for clear_queue
channel_clear channel = call_channel (queue_for channel) channel (λ queue. (clear_queue queue, tt))

unfoldable pub clear_all : DualChannelSpeechQueue → DualChannelSpeechQueue
unfolding clear_queue
clear_all queues = record { speech = clear_queue queues.speech; twitch = clear_queue queues.twitch }

unfoldable pub channel_force_idle :
    Text → DualChannelSpeechQueue → DualChannelSpeechQueue × ChannelResult Unit
unfolding call_channel queue_for force_idle
channel_force_idle channel =
    call_channel (queue_for channel) channel (λ queue. (force_idle queue, tt))

unfoldable pub force_idle_all : DualChannelSpeechQueue → DualChannelSpeechQueue
unfolding force_idle
force_idle_all queues = record {
  speech = force_idle queues.speech;
  twitch = force_idle queues.twitch;
}

-- The calls of the two channels.
pub data ChannelCall : Type 0 where
  enqueue_on : Text → SpeechQueueItem → ℕ → ChannelCall
  begin_on : Text → ChannelCall
  finish_on : Text → Text → ChannelCall
  clear_on : Text → ChannelCall
  force_on : Text → ChannelCall
  clear_both : ChannelCall
  force_both : ChannelCall

unfoldable pub call_queues : ChannelCall → DualChannelSpeechQueue → DualChannelSpeechQueue
unfolding channel_enqueue channel_begin_next channel_mark_finished channel_clear channel_force_idle
    clear_all force_idle_all
call_queues (enqueue_on channel item max_items) queues =
    (channel_enqueue channel item max_items queues).0
call_queues (begin_on channel) queues = (channel_begin_next channel queues).0
call_queues (finish_on channel id) queues = (channel_mark_finished channel id queues).0
call_queues (clear_on channel) queues = (channel_clear channel queues).0
call_queues (force_on channel) queues = (channel_force_idle channel queues).0
call_queues clear_both queues = clear_all queues
call_queues force_both queues = force_idle_all queues

unfoldable pub call_all : List ChannelCall → DualChannelSpeechQueue → DualChannelSpeechQueue
unfolding call_queues
call_all [] queues = queues
call_all (c ∷ cs) queues = call_all cs (call_queues c queues)

-- What a call means to the queue of one channel, by its name.
abbrev pub named : Text → Text → Operation → List Operation
named name channel o = if same channel name then o ∷ [] else []

abbrev pub seen_by : Text → ChannelCall → List Operation
seen_by name (enqueue_on channel item max_items) = named name channel (enqueued item max_items)
seen_by name (begin_on channel) = named name channel begun
seen_by name (finish_on channel id) = named name channel (finished id)
seen_by name (clear_on channel) = named name channel emptied
seen_by name (force_on channel) = named name channel forced
seen_by name clear_both = emptied ∷ []
seen_by name force_both = forced ∷ []

abbrev pub seen_by_all : Text → List ChannelCall → List Operation
seen_by_all name [] = []
seen_by_all name (c ∷ cs) = seen_by name c ++ seen_by_all name cs
