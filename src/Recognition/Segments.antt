-- ===== src/Recognition/Segments.antt =====
-- crates/voicesub-runtime/src/segment_state.rs: the sequence, the active segment and its revision, and what was
-- emitted last for a segment. A counter of a `u64` wraps.
use stream_sub_translator.Common.{
  ℕ, ◌+◌, Bool, true, false, Option, none, some, List, [], ◌++◌, Text, Text-discrete, codes, same,
  is_empty, trim, join, lookup, insert, remove, decimal, split_whitespace, space, u64,
  if◌then◌else◌,
}
use stream_sub_translator.Subtitle.Settings.{or_default}

pub record SegmentStateController : Type 0 where
  pub sequence : ℕ
  pub segment_counter : ℕ
  pub active_segment_id : Option Text
  pub active_segment_revision : ℕ
  pub last_partial_text_by_segment : List (Text × Text)
  pub last_partial_emit_monotonic_by_segment : List (Text × ℕ)

abbrev pub initial_segments : SegmentStateController
initial_segments = record {
  sequence = 0;
  segment_counter = 0;
  active_segment_id = none;
  active_segment_revision = 0;
  last_partial_text_by_segment = [];
  last_partial_emit_monotonic_by_segment = [];
}

unfoldable pub next_sequence : SegmentStateController → SegmentStateController × ℕ
next_sequence state =
    let sequence = u64 (state.sequence + 1) in (record state { sequence = sequence }, sequence)

unfoldable pub next_segment_id : Text → SegmentStateController → SegmentStateController × Text
unfolding decimal
next_segment_id prefix state =
    let counter = u64 (state.segment_counter + 1) in
    (record state { segment_counter = counter }, prefix ++ codes "-" ++ decimal counter)

unfoldable pub clear_active_segment : SegmentStateController → SegmentStateController
clear_active_segment state = record state { active_segment_id = none; active_segment_revision = 0 }

unfoldable pub bump_active_segment_revision : SegmentStateController → SegmentStateController × ℕ
bump_active_segment_revision state =
    let revision = u64 (state.active_segment_revision + 1) in
    (record state { active_segment_revision = revision }, revision)

-- Nothing for an id that is absent or blank; the id is not trimmed otherwise.
unfoldable pub clear_partial_tracking_for_segment :
    Option Text → SegmentStateController → SegmentStateController
unfolding trim remove
clear_partial_tracking_for_segment none state = state
clear_partial_tracking_for_segment (some segment_id) state =
    if is_empty (trim segment_id) then state else record state {
      last_partial_text_by_segment =
          remove Text-discrete segment_id state.last_partial_text_by_segment;
      last_partial_emit_monotonic_by_segment =
          remove Text-discrete segment_id state.last_partial_emit_monotonic_by_segment;
    }

unfoldable pub get_last_partial_text : Text → SegmentStateController → Text
unfolding lookup
get_last_partial_text segment_id state =
    or_default [] (lookup Text-discrete segment_id state.last_partial_text_by_segment)

unfoldable pub get_last_partial_emit_monotonic : Text → SegmentStateController → Option ℕ
unfolding lookup
get_last_partial_emit_monotonic segment_id state =
    lookup Text-discrete segment_id state.last_partial_emit_monotonic_by_segment

unfoldable pub mark_partial_emitted :
    ℕ → Text → Text → SegmentStateController → SegmentStateController
unfolding split_whitespace join insert
mark_partial_emitted now segment_id text state = record state {
  last_partial_text_by_segment =
      insert Text-discrete segment_id (join space (split_whitespace text))
        state.last_partial_text_by_segment;
  last_partial_emit_monotonic_by_segment =
      insert Text-discrete segment_id now state.last_partial_emit_monotonic_by_segment;
}

-- `map(str::trim).filter(|id| !id.is_empty())`.
unfoldable pub trimmed : Option Text → Option Text
unfolding trim
trimmed none = none
trimmed (some s) = let t = trim s in if is_empty t then none else some t

abbrev pub is_id : Text → Option Text → Bool
is_id t none = false
is_id t (some s) = same s t

-- What `assign_segment_tracking` returns beside the state.
pub record Assigned : Type 0 where
  pub segment_id : Text
  pub revision : ℕ
  pub started_now : Bool
  pub previous_to_clear : Option Text

-- The choice of the active segment, before its revision is counted up.
unfoldable pub choose_segment :
    Option Text → SegmentStateController → SegmentStateController × Bool × Option Text
unfolding next_segment_id same
choose_segment (some preferred) state =
    if is_id preferred state.active_segment_id then (state, false, none) else (
      record state { active_segment_id = some preferred; active_segment_revision = 0 },
      true,
      state.active_segment_id,
    )
choose_segment none state = elim state.active_segment_id [
  | some _ ↦ (state, false, none)
  | none ↦
      let next = next_segment_id (codes "segment") state in
      (record next.0 { active_segment_id = some next.1; active_segment_revision = 0 }, true, none)
]

unfoldable pub assign_segment_tracking :
    Option Text → SegmentStateController → SegmentStateController × Assigned
unfolding choose_segment trimmed bump_active_segment_revision
assign_segment_tracking preferred_segment_id state =
    let chosen = choose_segment (trimmed preferred_segment_id) state in
    let bumped = bump_active_segment_revision chosen.0 in
    (
      bumped.0,
      record {
        segment_id = or_default [] bumped.0.active_segment_id;
        revision = bumped.1;
        started_now = chosen.1;
        previous_to_clear = chosen.2;
      },
    )

cleanup_on_browser_worker_disconnect : SegmentStateController → SegmentStateController
unfolding clear_active_segment clear_partial_tracking_for_segment
cleanup_on_browser_worker_disconnect state =
    clear_partial_tracking_for_segment state.active_segment_id (clear_active_segment state)

-- Every field is cleared.
abbrev pub reset : SegmentStateController → SegmentStateController
reset state = initial_segments
