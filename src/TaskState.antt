-- ===== src/TaskState.antt =====
-- cli/cmd/shellman/runtime_task_state_actor.go: the actor that collects the reports of the panes
-- until its next tick. A mutex guards each operation, which is a function on the state; the trigger
-- is the Boolean of a channel of capacity one.
use shellman.Base.{
  bool_eq, is_some, ℕ, ◌+◌, Bool, true, false, not, ◌&&◌, ◌||◌, List, [], ◌∷◌, ◌++◌, Option, none,
  some, ◌==◌, if◌then◌else◌, Text, text_eq, is_empty, trim_space,
}
use shellman.Base.{Map, insert}
pub mod Intake
pub mod Tree
pub mod Delta
pub mod Mirror
pub mod Rounds
pub mod Recent

pub record PaneStateReport : Type 0 where
  pub pane_id : Text
  pub pane_target : Text
  pub current_command : Text
  pub runtime_status : Text
  pub snapshot : Text
  pub snapshot_hash : Text
  pub cursor_x : ℕ
  pub cursor_y : ℕ
  pub has_cursor : Bool
  pub updated_at : ℕ

pub record TaskStateActor : Type 0 where
  pub pane_latest : Map PaneStateReport
  pub dirty_pane_ids : Map Bool
  pub report_queue : List PaneStateReport
  pub trigger_queue : Bool

unfoldable pub new_task_state_actor : TaskStateActor
new_task_state_actor = record {
  pane_latest = λ _. none;
  dirty_pane_ids = λ _. none;
  report_queue = [];
  trigger_queue = false;
}

unfoldable pub same_pane_content : PaneStateReport → PaneStateReport → Bool
same_pane_content a b =
    text_eq (trim_space a.pane_target) (trim_space b.pane_target)
    && text_eq (trim_space a.current_command) (trim_space b.current_command)
    && text_eq (trim_space a.runtime_status) (trim_space b.runtime_status)
    && text_eq a.snapshot b.snapshot
    && text_eq (trim_space a.snapshot_hash) (trim_space b.snapshot_hash)
    && (a.cursor_x == b.cursor_x)
    && (a.cursor_y == b.cursor_y)
    && bool_eq a.has_cursor b.has_cursor

unfoldable pub is_unchanged : Option PaneStateReport → PaneStateReport → Bool
is_unchanged none r = false
is_unchanged (some prev) r = same_pane_content prev r

-- The report is kept, its pane is dirty, and the trigger is set if it was not.
unfoldable pub enqueue_report : TaskStateActor → PaneStateReport → TaskStateActor
enqueue_report a r = record {
  pane_latest = insert r.pane_id r a.pane_latest;
  dirty_pane_ids = insert r.pane_id true a.dirty_pane_ids;
  report_queue = a.report_queue ++ r ∷ [];
  trigger_queue = true;
}

unfoldable pub on_pane_report : TaskStateActor → PaneStateReport → TaskStateActor
on_pane_report a r =
    let pane_id = trim_space r.pane_id in
    let named = record r { pane_id = pane_id } in
    if is_empty pane_id || is_unchanged (a.pane_latest pane_id) named
    then a
    else enqueue_report a named

unfoldable pub is_pane_dirty : TaskStateActor → Text → Bool
is_pane_dirty a pane_id =
    let id = trim_space pane_id in not (is_empty id) && is_some (a.dirty_pane_ids id)

-- The reports that the tick takes, and the actor without them. The run loop has taken the trigger.
unfoldable pub swap_dirty_reports : TaskStateActor → List PaneStateReport × TaskStateActor
swap_dirty_reports a = elim a.report_queue as (λ _. List PaneStateReport × TaskStateActor) [
  | [] ↦ ([], a)
  | _ ∷ _ ↦ (a.report_queue, record a { dirty_pane_ids = λ _. none; report_queue = [] })
]

-- One round of the run loop: the trigger is taken, and then the reports.
unfoldable pub take_reports : TaskStateActor → List PaneStateReport × TaskStateActor
take_reports a =
    if a.trigger_queue then swap_dirty_reports (record a { trigger_queue = false }) else ([], a)
