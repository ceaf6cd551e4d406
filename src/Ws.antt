-- ===== src/Ws.antt =====
-- crates/voicesub-ws: the numbering of the events that are broadcast.
pub mod Sequencer
