-- ===== src/Subtitle.antt =====
-- crates/voicesub-subtitle: the configuration that it reads, the payloads that it builds, and the
-- lifecycle of a subtitle block.
pub mod Settings
pub mod Presentation
pub mod Lifecycle
pub mod Current
pub mod Router
