-- ===== src/Tts/Channels/Independent.antt =====
-- crates/voicesub-tts/src/channel_queue.rs: the two channels do not touch each other.
use stream_sub_translator.Common.{
  true, false, ◌≡◌, refl, sym, ap, ◌∙◌, List, [], ◌∷◌, ◌++◌, Text, codes, same, arith,
}
use stream_sub_translator.Tts.Queue.{SpeechQueue}
use stream_sub_translator.Tts.Queue.Fifo.{
  Operation, enqueued, begun, finished, emptied, forced, serve, serve_all,
}
use stream_sub_translator.Tts.Channels.{
  DualChannelSpeechQueue, queue_for, call_channel, channel_enqueue, channel_begin_next,
  channel_mark_finished, channel_clear, clear_all, channel_force_idle, force_idle_all, ChannelCall,
  enqueue_on, begin_on, finish_on, clear_on, force_on, clear_both, force_both, call_queues,
  call_all, named, seen_by, seen_by_all,
}

serve_all-append :
    (os ps : List Operation) (queue : SpeechQueue)
    → (serve_all (os ++ ps) queue).0 ≡ (serve_all ps (serve_all os queue).0).0
unfolding serve_all
serve_all-append [] ps queue = refl
serve_all-append (o ∷ os) ps queue = serve_all-append os ps (serve o queue).0

same→eq : (s t : Text) → same s t ≡ true → s ≡ t
unfolding same
same→eq s t h = ground arith

not_both :
    (channel : Text) → same channel (codes "speech") ≡ true → same channel (codes "twitch") ≡ false
unfolding same
not_both channel h = ap (λ c. same c (codes "twitch")) (same→eq channel (codes "speech") h)

call_channel-speech :
    {A : Type 0} (channel : Text) (f : SpeechQueue → SpeechQueue × A) (o : Operation)
    (queues : DualChannelSpeechQueue)
    → (f queues.speech).0 ≡ (serve o queues.speech).0
    → (call_channel (queue_for channel) channel f queues).0.speech
      ≡ (serve_all (named (codes "speech") channel o) queues.speech).0
unfolding call_channel queue_for serve_all
call_channel-speech channel f o queues e = ground arith

call_channel-twitch :
    {A : Type 0} (channel : Text) (f : SpeechQueue → SpeechQueue × A) (o : Operation)
    (queues : DualChannelSpeechQueue)
    → (f queues.twitch).0 ≡ (serve o queues.twitch).0
    → (call_channel (queue_for channel) channel f queues).0.twitch
      ≡ (serve_all (named (codes "twitch") channel o) queues.twitch).0
unfolding call_channel queue_for serve_all
call_channel-twitch channel f o queues e = ground (arith, not_both channel)

speech_called :
    (c : ChannelCall) (queues : DualChannelSpeechQueue)
    → (call_queues c queues).speech ≡ (serve_all (seen_by (codes "speech") c) queues.speech).0
unfolding call_queues channel_enqueue channel_begin_next channel_mark_finished channel_clear
    channel_force_idle clear_all force_idle_all serve serve_all
speech_called (enqueue_on channel item max_items) queues =
    call_channel-speech channel _ (enqueued item max_items) queues refl
speech_called (begin_on channel) queues = call_channel-speech channel _ begun queues refl
speech_called (finish_on channel id) queues =
    call_channel-speech channel _ (finished id) queues refl
speech_called (clear_on channel) queues = call_channel-speech channel _ emptied queues refl
speech_called (force_on channel) queues = call_channel-speech channel _ forced queues refl
speech_called clear_both queues = refl
speech_called force_both queues = refl

twitch_called :
    (c : ChannelCall) (queues : DualChannelSpeechQueue)
    → (call_queues c queues).twitch ≡ (serve_all (seen_by (codes "twitch") c) queues.twitch).0
unfolding call_queues channel_enqueue channel_begin_next channel_mark_finished channel_clear
    channel_force_idle clear_all force_idle_all serve serve_all
twitch_called (enqueue_on channel item max_items) queues =
    call_channel-twitch channel _ (enqueued item max_items) queues refl
twitch_called (begin_on channel) queues = call_channel-twitch channel _ begun queues refl
twitch_called (finish_on channel id) queues =
    call_channel-twitch channel _ (finished id) queues refl
twitch_called (clear_on channel) queues = call_channel-twitch channel _ emptied queues refl
twitch_called (force_on channel) queues = call_channel-twitch channel _ forced queues refl
twitch_called clear_both queues = refl
twitch_called force_both queues = refl

-- After any calls, each of the two queues is what it would be if it had served, alone, the calls
-- that name its channel and those that mean both: a call of one channel, or of an unknown one,
-- leaves the other as it is.
pub channels_independent :
    (cs : List ChannelCall) (queues : DualChannelSpeechQueue)
    → ((call_all cs queues).speech ≡ (serve_all (seen_by_all (codes "speech") cs) queues.speech).0)
      × ((call_all cs queues).twitch
          ≡ (serve_all (seen_by_all (codes "twitch") cs) queues.twitch).0)
unfolding call_all serve_all
channels_independent [] queues = (refl, refl)
channels_independent (c ∷ cs) queues =
    let next = call_queues c queues in
    let rest = channels_independent cs next in
    (
      rest.0
          ∙ ap (λ q. (serve_all (seen_by_all (codes "speech") cs) q).0) (speech_called c queues)
          ∙ sym (
              serve_all-append (seen_by (codes "speech") c) (seen_by_all (codes "speech") cs)
                queues.speech),
      rest.1
          ∙ ap (λ q. (serve_all (seen_by_all (codes "twitch") cs) q).0) (twitch_called c queues)
          ∙ sym (
              serve_all-append (seen_by (codes "twitch") c) (seen_by_all (codes "twitch") cs)
                queues.twitch),
    )
