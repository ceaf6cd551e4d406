-- ===== src/Recognition.antt =====
-- crates/voicesub-runtime: the way of a recognised text from the browser worker to the subtitles.
pub mod Segments
pub mod Emission
pub mod Source
pub mod Transcript
