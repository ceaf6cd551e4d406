-- ===== src/Tests/Tts.antt =====
-- Runs of the speech queues, and their theorems at concrete inputs.
use stream_sub_translator.Common.{ℕ, ◌≤◌, ◌≡◌, refl, none, List, [], ◌∷◌, ◌++◌, length, max, codes}
use stream_sub_translator.Tts.Queue.{SpeechQueueItem, empty_queue, enqueue_with_cap}
use stream_sub_translator.Tts.Queue.Fifo.{
  Operation, enqueued, begun, finished, halted, resumed, serve_all, arrivals, enqueue-length,
  serve_all_fifo,
}
use stream_sub_translator.Tts.Channels.{
  DualChannelSpeechQueue, ChannelCall, enqueue_on, begin_on, force_on, call_all, seen_by_all,
}
use stream_sub_translator.Tts.Channels.Independent.{channels_independent}

abbrev item : ℕ → SpeechQueueItem
item n = record {
  id = n ∷ [];
  text = codes "hi";
  source = [];
  lang = codes "en";
  dedupe_key = none;
}

-- Three items with room for two, the first of them spoken.
abbrev operations : List Operation
operations =
    enqueued (item 1) 2
    ∷ begun
    ∷ enqueued (item 2) 2
    ∷ halted
    ∷ resumed
    ∷ enqueued (item 3) 2
    ∷ enqueued (item 4) 2
    ∷ finished (1 ∷ [])
    ∷ begun
    ∷ []

operations_run : (serve_all operations empty_queue).1 ≡ item 1 ∷ item 2 ∷ item 3 ∷ []
unfolding serve_all
operations_run = refl

abbrev calls : List ChannelCall
calls =
    enqueue_on (codes "speech") (item 1) 4
    ∷ enqueue_on (codes "twitch") (item 2) 4
    ∷ begin_on (codes "twitch")
    ∷ begin_on (codes "obs")
    ∷ force_on (codes "twitch")
    ∷ []

abbrev two_empty : DualChannelSpeechQueue
two_empty = record { speech = empty_queue; twitch = empty_queue }

enqueue-length_example : length (enqueue_with_cap (item 1) 1 empty_queue).0.items ≤ max 1 2
enqueue-length_example = enqueue-length (item 1) 1 empty_queue

serve_all_fifo_example :
    (serve_all operations empty_queue).1 ++ (serve_all operations empty_queue).0.items
    ≡ [] ++ arrivals operations
serve_all_fifo_example = serve_all_fifo operations empty_queue

channels_independent_example :
    ((call_all calls two_empty).speech
      ≡ (serve_all (seen_by_all (codes "speech") calls) empty_queue).0)
    × ((call_all calls two_empty).twitch
        ≡ (serve_all (seen_by_all (codes "twitch") calls) empty_queue).0)
channels_independent_example = channels_independent calls two_empty
