-- ===== src/Tests.antt =====
-- The theorems at concrete inputs.
mod Cache
mod Dispatcher
mod Subtitle
mod Router
mod Recognition
mod Tts
mod Twitch
mod Ws
