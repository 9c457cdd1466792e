-- ===== src/AutoComplete/Handler.antt =====
-- AutoCompleteByPane of cli/internal/localapi/run_autocomplete.go. A fault of a lookup or of the check
-- of the binding comes before its first write. `PaneTarget` of the result is the trimmed one of the
-- input.
use shellman.Base.{
  ◌⊎◌, inl, inr, ℕ, Bool, true, false, ◌||◌, [], Option, none, some, ◌==◌, if◌then◌else◌, Text,
  codes, text_eq, is_empty, trim_space, to_lower,
}
use shellman.Runs.Tables.{
  Db, Task, TaskRun, append_run_event, try_mark_task_auto_progress_observed,
  run_status_needs_rebind,
}
use shellman.Runs.Bindings.{invalidate_binding_if_server_changed}
use shellman.Policy.{normalize_sidecar_mode}
use shellman.AutoComplete.Lookups.{
  Project, Found, find_task_by_pane_target, find_live_running_run_by_pane_target_for_task,
}
use shellman.AutoComplete.Completing.{
  Faults, status_completed, update_task_status_internal, Setting, Notice,
  complete_run_and_enqueue_actions,
}

-- `ObservedLastActiveAt`, in seconds.
pub data Observed : Type 0 where
  before_epoch : Observed
  at_second : ℕ → Observed

pub record AutoCompleteByPaneInput : Type 0 where
  pub pane_target : Text
  pub summary : Text
  pub trigger_source : Text
  pub observed_last_active_at : Observed

pub record AutoCompleteByPaneResult : Type 0 where
  pub triggered : Bool
  pub reason : Text
  pub run_id : Text
  pub task_id : Text
  pub status : Text
  pub summary_used : Text

pub data Reply : Type 0 where
  failed : Text → Text → Reply
  replied : AutoCompleteByPaneResult → Reply

pub record Outcome : Type 0 where
  pub db : Db
  pub reply : Reply
  pub notice : Option Notice

unfoldable pub skipped : Db → Text → Text → Text → Text → Outcome
skipped db reason run_id task_id status = record {
  db = db;
  reply = replied (record {
    triggered = false;
    reason = reason;
    run_id = run_id;
    task_id = task_id;
    status = status;
    summary_used = [];
  });
  notice = none;
}

unfoldable pub refused : Db → Text → Text → Outcome
refused db code message = record { db = db; reply = failed code message; notice = none }

unfoldable pub completed : Db → Text → Text → Text → Notice → Outcome
completed db run_id task_id summary notice = record {
  db = db;
  reply = replied (record {
    triggered = true;
    reason = [];
    run_id = run_id;
    task_id = task_id;
    status = status_completed;
    summary_used = summary;
  });
  notice = some notice;
}

-- `if err != nil { return the error }`.
unfoldable pub unless : Option Text → Db → Text → Outcome → Outcome
unfolding refused
unless none db code rest = rest
unless (some err) db code rest = refused db code err

module _ (setting : Setting) (faults : Faults) where
  -- After completeRunAndEnqueueActions, which has told the other parts if it did not fail.
  unfoldable pub finish_run : TaskRun → Text → Db × (Text ⊎ Notice) → Outcome
  unfolding refused completed
  finish_run run summary (db, inl err) = refused db (codes "RUN_COMPLETE_FAILED") err
  finish_run run summary (db, inr notice) = completed db run.run_id run.task_id summary notice

  -- After invalidateBindingIfServerChanged.
  unfoldable pub with_binding : TaskRun → Text → Text → Db × Bool → Outcome
  unfolding skipped finish_run complete_run_and_enqueue_actions append_run_event
  with_binding run pane_target summary (db, true) =
      skipped db (codes "binding-invalidated-server-changed") run.run_id run.task_id
        run_status_needs_rebind
  with_binding run pane_target summary (db, false) = finish_run run summary (
      complete_run_and_enqueue_actions setting faults
        (append_run_event db run.run_id (codes "auto_complete.pane_idle")
          (setting.idle_json pane_target) setting.now)
        run.run_id summary)

  unfoldable pub finish_task : Project → Text → Text → Db × Option Text → Outcome
  unfolding refused completed
  finish_task p task_id summary (db, some err) = refused db (codes "TASK_COMPLETE_FAILED") err
  finish_task p task_id summary (db, none) =
      completed db [] task_id summary
        (record { project_id = p.project_id; run_id = []; task_id = task_id; summary = summary })

  -- With the live run of the task in the pane, or without one.
  unfoldable pub proceed : Db → Project → Text → Text → Text → Option TaskRun → Outcome
  unfolding unless with_binding invalidate_binding_if_server_changed finish_task
      update_task_status_internal
  proceed db p task_id pane_target summary (some run) =
      unless faults.binding_check db (codes "RUN_BINDING_CHECK_FAILED") (
        with_binding run pane_target summary (
          invalidate_binding_if_server_changed db run.run_id setting.current_server
            setting.restart_json setting.now))
  proceed db p task_id pane_target summary none =
      finish_task p task_id summary
        (update_task_status_internal faults.update_status db p task_id status_completed setting.now)

  -- From the lookup of the run on.
  unfoldable pub look_up_run : Db → Project → Text → Text → Text → Outcome
  unfolding unless proceed find_live_running_run_by_pane_target_for_task
  look_up_run db p task_id pane_target summary =
      unless faults.run_lookup db (codes "RUN_LOOKUP_FAILED") (
        proceed db p task_id pane_target
          (if is_empty (trim_space summary)
            then codes "auto-complete: pane idle and output stable"
            else trim_space summary)
          (find_live_running_run_by_pane_target_for_task db pane_target task_id))

  -- After TryMarkTaskAutoProgressObserved.
  unfoldable pub when_accepted : Text → Db × Bool → (Db → Outcome) → Outcome
  unfolding skipped
  when_accepted task_id (db, true) rest = rest db
  when_accepted task_id (db, false) rest =
      skipped db (codes "duplicate-observed-last-active-at") [] task_id (codes "skipped")

  unfoldable pub mark_observed : Db → Project → Task → Text → Observed → (Db → Outcome) → Outcome
  unfolding refused unless when_accepted try_mark_task_auto_progress_observed
  mark_observed db p entry task_id before_epoch rest =
      refused db (codes "INVALID_OBSERVED_LAST_ACTIVE_AT")
        (codes "observed_last_active_at must be unix timestamp in seconds")
  mark_observed db p entry task_id (at_second sec) rest =
      if sec == 0
      then rest db
      else unless faults.mark db (codes "TASK_AUTOPROGRESS_MARK_FAILED") (
          when_accepted task_id
            (try_mark_task_auto_progress_observed db p.repo_root
              (record entry { task_id = task_id; project_id = p.project_id; active_adapter = [] })
              sec setting.now)
            rest)

  unfoldable pub advises : Task → Bool
  advises entry =
      let mode = normalize_sidecar_mode entry.sidecar_mode in
      is_empty mode || text_eq mode (codes "advisor")

  unfoldable pub is_pane_actor : Text → Bool
  unfolding to_lower
  is_pane_actor trigger_source = text_eq (to_lower (trim_space trigger_source)) (codes "pane-actor")

  -- With the task that is bound to the pane.
  unfoldable pub with_found : Db → AutoCompleteByPaneInput → Text → Project → Task → Outcome
  unfolding refused skipped advises mark_observed look_up_run is_pane_actor
  with_found db input pane_target p entry =
      let task_id = trim_space entry.task_id in
      let rest = λ (d : Db). look_up_run d p task_id pane_target input.summary in
      if is_empty task_id
      then refused db (codes "TASK_LOOKUP_FAILED") (codes "task id is empty")
      else if is_pane_actor input.trigger_source
      then (if advises entry
          then skipped db (codes "sidecar-mode-advisor") [] task_id (codes "skipped")
          else mark_observed db p entry task_id input.observed_last_active_at rest)
      else rest db

  unfoldable pub with_lookup : Db → AutoCompleteByPaneInput → Text → Option Found → Outcome
  unfolding skipped with_found
  with_lookup db input pane_target none =
      skipped db (codes "no-task-pane-binding") [] [] (codes "skipped")
  with_lookup db input pane_target (some found) =
      with_found db input pane_target found.project found.entry

  unfoldable pub auto_complete_by_pane : Db → AutoCompleteByPaneInput → Outcome
  unfolding refused unless with_lookup find_task_by_pane_target
  auto_complete_by_pane db input =
      let pane_target = trim_space input.pane_target in
      if is_empty pane_target
      then refused db (codes "INVALID_PANE_TARGET") (codes "pane_target is required")
      else unless faults.task_lookup db (codes "TASK_LOOKUP_FAILED") (
          with_lookup db input pane_target
            (find_task_by_pane_target db setting.projects pane_target))
