-- ===== src/Events.antt =====
-- crates/voicesub-subtitle/src/types.rs: the events that the components pass to one another.
use stream_sub_translator.Common.{ℕ, Bool, Option, List, Text}

pub data TranscriptKind : Type 0 where
  partial final : TranscriptKind

-- Times of an `i64` are natural numbers: the recogniser's clock starts at zero.
pub record TranscriptSegment : Type 0 where
  pub segment_id : Text
  pub text : Text
  pub is_final : Bool
  pub source_lang : Text
  pub provider : Option Text
  pub sequence : ℕ
  pub revision : ℕ
  pub start_ms : Option ℕ
  pub end_ms : Option ℕ

pub record TranscriptEvent : Type 0 where
  pub event : TranscriptKind
  pub text : Text
  pub sequence : ℕ
  pub segment : Option TranscriptSegment

pub record TranslationItem : Type 0 where
  pub target_lang : Text
  pub text : Text
  pub provider : Text
  pub slot_id : Option Text
  pub label : Option Text
  pub provider_group : Option Text
  pub experimental : Bool
  pub local_provider : Bool
  pub success : Bool
  pub error : Option Text
  pub cached : Bool

pub record TranslationEvent : Type 0 where
  pub sequence : ℕ
  pub source_text : Text
  pub source_lang : Text
  pub translations : List TranslationItem
  pub provider : Text
  pub provider_group : Option Text
  pub experimental : Bool
  pub local_provider : Bool
  pub used_default_prompt : Bool
  pub status_message : Option Text
  pub is_complete : Bool

-- `SubtitleLineItem::kind`, a text that is "source" or "translation" in the source.
pub data LineKind : Type 0 where
  source translation : LineKind

pub record SubtitleLineItem : Type 0 where
  pub kind : LineKind
  pub lang : Text
  pub label : Text
  pub text : Text
  pub style_slot : Option Text
  pub slot_id : Option Text
  pub target_lang : Option Text
  pub provider : Option Text
  pub visible : Bool
  pub success : Bool
  pub error : Option Text

pub data LifecycleState : Type 0 where
  idle partial_only completed_only completed_with_partial : LifecycleState

-- Without `style`, which `style.rs` resolves.
pub record SubtitlePayloadEvent : Type 0 where
  pub sequence : ℕ
  pub source_lang : Text
  pub source_text : Text
  pub provider : Option Text
  pub preset : Text
  pub compact : Bool
  pub display_order : List Text
  pub show_source : Bool
  pub show_translations : Bool
  pub max_translation_languages : ℕ
  pub items : List SubtitleLineItem
  pub visible_items : List SubtitleLineItem
  pub lifecycle_state : LifecycleState
  pub completed_block_visible : Bool
  pub completed_expires_at_utc : Option ℕ
  pub active_partial_text : Text
  pub active_partial_sequence : Option ℕ
  pub active_partial_source_lang : Option Text
  pub line1 : Text
  pub line2 : Text
  pub created_at_ms : Option ℕ
