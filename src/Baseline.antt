-- ===== src/Baseline.antt =====
-- The status of the panes at the start: cli/cmd/shellman/runtime_status_baseline.go, on rows that
-- have been read and decoded. A map is gone through as the list of its entries, in any order; a time
-- before the epoch is 0.
use shellman.Base.{
  ℕ, ◌≡◌, Bool, true, false, not, ◌&&◌, ◌||◌, List, [], ◌∷◌, ◌++◌, Option, none, some, ltb, leb,
  ◌==◌, if◌then◌else◌, Text, codes, text_eq, is_empty, trim_space, to_lower, Map, insert, empty_map,
}
use shellman.Session.{SessionStatus, unset, running, ready, unknown}
use shellman.Pane.Status.{PaneRuntimeBaseline}
pub mod Merging

pub record PaneRuntimeRecord : Type 0 where
  pub pane_id : Text
  pub pane_target : Text
  pub runtime_status : Text
  pub snapshot_hash : Text
  pub updated_at : ℕ

pub record Binding : Type 0 where
  pub task_id : Text
  pub pane_uuid : Text
  pub pane_id : Text
  pub pane_target : Text

unfoldable pub is_known : SessionStatus → Bool
is_known unset = true
is_known running = true
is_known ready = true
is_known unknown = false

unfoldable pub normalize_baseline_runtime_status : Text → SessionStatus
unfolding to_lower
normalize_baseline_runtime_status raw =
    let s = to_lower (trim_space raw) in
    if text_eq s (codes "running")
    then running
    else if text_eq s (codes "ready")
    then ready
    else unknown

unfoldable pub is_older : PaneRuntimeRecord → Option PaneRuntimeRecord → Bool
is_older row none = false
is_older row (some prev) = ltb row.updated_at prev.updated_at

-- `put` of loadPaneRuntimeBaselineIndex.
unfoldable pub put : Text → PaneRuntimeRecord → Map PaneRuntimeRecord → Map PaneRuntimeRecord
unfolding is_older insert
put raw row m =
    let key = trim_space raw in if is_empty key || is_older row (m key) then m else insert key row m

unfoldable pub load_pane_runtime_baseline_index :
    Map PaneRuntimeRecord → List PaneRuntimeRecord → Map PaneRuntimeRecord
unfolding put
load_pane_runtime_baseline_index m [] = m
load_pane_runtime_baseline_index m (row ∷ rows) =
    load_pane_runtime_baseline_index (put row.pane_target row (put row.pane_id row m)) rows

-- What a row of the pane adds to the baseline.
unfoldable pub with_row : PaneRuntimeBaseline → Option PaneRuntimeRecord → PaneRuntimeBaseline
unfolding is_known normalize_baseline_runtime_status
with_row base none = base
with_row base (some row) =
    let status = normalize_baseline_runtime_status row.runtime_status in
    let hash = trim_space row.snapshot_hash in
    record {
      last_active_at =
          if ltb base.last_active_at row.updated_at then row.updated_at else base.last_active_at;
      runtime_status = if is_known status then status else base.runtime_status;
      snapshot_hash = if is_empty hash then base.snapshot_hash else hash;
    }

unfoldable pub with_rows :
    Map PaneRuntimeRecord → PaneRuntimeBaseline → List Text → PaneRuntimeBaseline
unfolding with_row
with_rows index base [] = base
with_rows index base (raw ∷ ids) =
    let id = trim_space raw in
    with_rows index (if is_empty id then base else with_row base (index id)) ids

-- The baseline of a binding, with the time at which its task was last modified (0 if it is unknown).
unfoldable pub baseline_of : Map PaneRuntimeRecord → ℕ → Binding → PaneRuntimeBaseline
unfolding with_rows
baseline_of index last_modified b =
    with_rows index
      (record { last_active_at = last_modified; runtime_status = unknown; snapshot_hash = [] })
      (b.pane_target ∷ b.pane_id ∷ b.pane_uuid ∷ [])

unfoldable pub is_blank : PaneRuntimeBaseline → Bool
unfolding is_known
is_blank c =
    (c.last_active_at == 0)
    && not (is_known c.runtime_status)
    && is_empty (trim_space c.snapshot_hash)

-- The entry of a target after a candidate that is not blank.
unfoldable pub merged : Option PaneRuntimeBaseline → PaneRuntimeBaseline → PaneRuntimeBaseline
unfolding is_known
merged none c = c
merged (some prev) c =
    if ltb prev.last_active_at c.last_active_at
    then c
    else if ltb c.last_active_at prev.last_active_at
    then prev
    else record {
      last_active_at = prev.last_active_at;
      runtime_status =
          if is_known prev.runtime_status then prev.runtime_status else c.runtime_status;
      snapshot_hash =
          if is_empty (trim_space prev.snapshot_hash)
          then (if is_empty (trim_space c.snapshot_hash)
              then prev.snapshot_hash
              else trim_space c.snapshot_hash)
          else prev.snapshot_hash;
    }

unfoldable pub merge_pane_baseline :
    Map PaneRuntimeBaseline → Text → PaneRuntimeBaseline → Map PaneRuntimeBaseline
unfolding is_blank merged insert
merge_pane_baseline dst target c =
    if is_empty target || is_blank c then dst else insert target (merged (dst target) c) dst

-- The loop over the bindings of a project.
unfoldable pub load_bindings :
    Map PaneRuntimeRecord
    → (Text → ℕ)
    → Map PaneRuntimeBaseline
    → List Binding
    → Map PaneRuntimeBaseline
unfolding merge_pane_baseline baseline_of
load_bindings index last_modified out [] = out
load_bindings index last_modified out (b ∷ bs) =
    let base = baseline_of index (last_modified b.task_id) b in
    load_bindings index last_modified
      (merge_pane_baseline (merge_pane_baseline out (trim_space b.pane_target) base)
        (trim_space b.pane_id) base)
      bs
