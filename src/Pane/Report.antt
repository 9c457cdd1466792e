-- ===== src/Pane/Report.antt =====
-- onSnapshotUpdated, reportTaskState and statusItem: what a pane actor tells of itself. The hash of
-- a snapshot and the current command that tmux knows of the pane are inputs; a snapshot is the list
-- of its bytes, and a cursor that is not known is `none`.
use shellman.Base.{
  ℕ, ◌+◌, ◌/◌, ◌≤◌, ◌≡◌, ◌⊎◌, Bool, true, not, ◌&&◌, ◌||◌, List, [], Option, none, some, ltb, ◌==◌,
  arith, if◌then◌else◌, Text, codes, is_empty, trim_space, is_some,
}
use shellman.Session.{
  SessionStatus, unset, running, ready, unknown, normalize_session_status, status_eq, Timing,
}
use shellman.Activity.Suppression.{Store}
use shellman.TaskState.{PaneStateReport}
use shellman.Registry.{SessionStatusItem, session_title_from_target}
use shellman.Pane.Status.{PaneStatus, Reading, Emission, emit_status_with_hash, second}

-- What the actor knows of the terminal, and of its reports.
pub record Screen : Type 0 where
  pub last_snap : List ℕ
  pub last_cursor : Option (ℕ × ℕ)

pub record Reporting : Type 0 where
  pub last_task_state_report_at : ℕ
  pub first_task_state_reported : Bool

-- `string(status)`.
unfoldable pub status_text : SessionStatus → Text
status_text unset = []
status_text running = codes "running"
status_text ready = codes "ready"
status_text unknown = codes "unknown"

-- `reportAt`, in nanoseconds.
unfoldable pub report_at : PaneStatus → Reporting → ℕ → ℕ
report_at p reporting now =
    let at =
      if not reporting.first_task_state_reported && not (p.seeded_last_active_at == 0)
      then p.seeded_last_active_at
      else p.status_state.last_active_at in
    if at == 0 then now else at

-- The command, when tmux answers.
command_or_empty : Option Text → Text
command_or_empty none = []
command_or_empty (some command) = trim_space command

learn_command : PaneStatus → Option Text → PaneStatus
learn_command p none = p
learn_command p (some command) = record p { last_current_command = trim_space command }

cursor_x_of : Option (ℕ × ℕ) → ℕ
cursor_x_of none = 0
cursor_x_of (some (x, y)) = x

cursor_y_of : Option (ℕ × ℕ) → ℕ
cursor_y_of none = 0
cursor_y_of (some (x, y)) = y

-- What a call of reportTaskState leaves, with the report if there is one.
pub record Reported : Type 0 where
  pub pane : PaneStatus
  pub reporting : Reporting
  pub report : Option PaneStateReport

module _ (target : Text) (snapshot_change_hash : List ℕ → Text) where
  unfoldable pub report_task_state :
      PaneStatus → Reporting → Screen → Option Text → ℕ → Text → Reported
  unfolding report_at command_or_empty learn_command cursor_x_of cursor_y_of status_text
  report_task_state p reporting screen command now snapshot_hash =
      if not (reporting.last_task_state_report_at == 0)
        && ltb now (reporting.last_task_state_report_at + second)
      then record { pane = p; reporting = reporting; report = none }
      else record {
        pane = learn_command p command;
        reporting = record { last_task_state_report_at = now; first_task_state_reported = true };
        report = some (record {
          pane_id = target;
          pane_target = target;
          current_command = command_or_empty command;
          runtime_status = status_text (normalize_session_status p.status_state.emitted);
          snapshot = screen.last_snap;
          snapshot_hash =
              if is_empty snapshot_hash
              then snapshot_change_hash screen.last_snap
              else snapshot_hash;
          cursor_x = cursor_x_of screen.last_cursor;
          cursor_y = cursor_y_of screen.last_cursor;
          has_cursor = is_some screen.last_cursor;
          updated_at = report_at p reporting now / second;
        });
      }

  -- `onSnapshotUpdated`: the status first, then the report, with the same hash.
  unfoldable pub on_snapshot_updated :
      Timing → PaneStatus → Store → Reporting → Screen → Option Text → Reading → Emission × Reported
  unfolding emit_status_with_hash report_task_state
  on_snapshot_updated timing p store reporting screen command r =
      let hash = snapshot_change_hash screen.last_snap in
      let e = emit_status_with_hash timing target p store (record r { curr_hash = hash }) in
      (e, report_task_state e.pane reporting screen command r.now hash)

  -- `statusItem`, with the flag that the actor has started.
  unfoldable pub status_item : PaneStatus → ℕ → SessionStatusItem × Bool
  status_item p now =
      let at = p.status_state.last_active_at in
      (
        record {
          target = target;
          title = session_title_from_target target;
          current_command = trim_space p.last_current_command;
          status = normalize_session_status p.status_state.emitted;
          updated_at = (if at == 0 then now else at) / second;
        },
        p.startup_hash_captured || not (status_eq p.status_state.emitted unset),
      )

  -- A report is sent at least a second after the last one, whose time is not the zero time; its
  -- own time is then the time of the last one.
  pub report_task_state-spaced :
      (p : PaneStatus) (reporting : Reporting) (screen : Screen) (command : Option Text) (now : ℕ)
      (snapshot_hash : Text)
      → let r = report_task_state p reporting screen command now snapshot_hash in
        is_some r.report ≡ true
        → ((reporting.last_task_state_report_at ≡ 0)
            ⊎ (reporting.last_task_state_report_at + second ≤ now))
          × (r.reporting.last_task_state_report_at ≡ now)
  unfolding report_task_state
  report_task_state-spaced p reporting screen command now snapshot_hash h = ground arith
