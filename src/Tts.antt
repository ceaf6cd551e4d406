-- ===== src/Tts.antt =====
-- crates/voicesub-tts: the queues of texts to speak.
pub mod Planner
pub mod Queue
pub mod Channels
