-- ===== src/Twitch.antt =====
-- crates/voicesub-twitch: the replacement of words in source texts and chat messages, and which messages
-- are spoken.
pub mod Replacement
pub mod Filter
