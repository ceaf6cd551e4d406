-- ===== src/Translation.antt =====
-- crates/voicesub-translation: the translation cache, preview lineage and job dispatcher.
pub mod Cache
pub mod Lineage
pub mod Dispatcher
