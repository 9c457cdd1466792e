-- ===== src/AutoComplete/Marks.antt =====
-- AutoCompleteByPane: what follows the mark of an observation keeps the marks of all tasks.
use shellman.Base.{
  ◌⊎◌, ℕ, ◌≡◌, refl, ◌∙◌, inl, inr, Bool, true, false, List, [], ◌∷◌, Option, none, some, arith,
  Text, codes, is_empty, trim_space, Bool-cases, if◌then◌else◌, text_eq, ◌||◌,
}
use shellman.Runs.Tables.{
  Db, Task, TaskRun, RunBinding, get_live_binding_by_run_id, update_where, mark_run_completed,
  enqueue_run_action, append_run_event, set_run_status, mark_bindings_stale_by_server,
}
use shellman.Runs.Bindings.{invalidate_binding_if_server_changed, invalidate_binding}
use shellman.Runs.Progress.{mark_of}
use shellman.AutoComplete.Lookups.{
  Project, find_task_entry_in_project, find_live_running_run_by_pane_target_for_task,
}
use shellman.AutoComplete.Completing.{
  Notice, Faults, Setting, attempt, find_task, find_run, status_completed, set_task_status,
  upsert_status, updated_status, update_task_status_internal, dispatch, with_task, with_run,
  complete_run_and_enqueue_actions,
}
use shellman.AutoComplete.Handler.{
  Outcome, skipped, refused, completed, unless, finish_run, with_binding, finish_task, proceed,
  look_up_run,
}

-- No mark of a task changes.
abbrev pub SameMarks : Db → Db → Type 0
SameMarks a b = (id : Text) → mark_of id b.tasks ≡ mark_of id a.tasks

attempt-SameMarks :
    {R : Type 0} (fail : Text → R) (a : Db) (fault : Option Text) (db : Db) (rest : Db × R)
    → SameMarks a db
    → SameMarks a rest.0
    → SameMarks a (attempt fail fault db rest).0
unfolding attempt
attempt-SameMarks fail a none db rest h k = k
attempt-SameMarks fail a (some err) db rest h k = h

update_where-mark :
    (id : Text) (p : Task → Bool) (f : Task → Task) (ts : List Task)
    → ((t : Task) → (f t).task_id ≡ t.task_id)
    → ((t : Task) → (f t).last_auto_progress_at ≡ t.last_auto_progress_at)
    → mark_of id (update_where p f ts) ≡ mark_of id ts
unfolding mark_of update_where
update_where-mark id p f [] h k = refl
update_where-mark id p f (t ∷ ts) h k = ground (arith, update_where-mark id p f ts h k, h t, k t)

updated-SameMarks :
    (blank : Bool) (db : Db) (err : Text) (rest : Db × Option Text)
    → SameMarks db rest.0
    → SameMarks db (if blank then (db, some err) else rest).0
updated-SameMarks true db err rest h id = refl
updated-SameMarks false db err rest h id = h id

updated_status-SameMarks :
    (db : Db) (p : Project) (task_id status : Text) (now : ℕ) (found : Option Task)
    → SameMarks db (updated_status db p task_id status now found).0
unfolding updated_status upsert_status set_task_status
updated_status-SameMarks db p task_id status now none id = refl
updated_status-SameMarks db p task_id status now (some t) id =
    updated-SameMarks (is_empty (trim_space status)) db _ _
      (updated-SameMarks (is_empty task_id) db _ _ (
        updated-SameMarks (is_empty p.project_id) db _ _
          (λ k. update_where-mark k _ _ db.tasks (λ t. refl) (λ t. refl))))
      id

update_task_status_internal-SameMarks :
    (fault : Option Text) (db : Db) (p : Project) (task_id status : Text) (now : ℕ)
    → SameMarks db (update_task_status_internal fault db p task_id status now).0
unfolding update_task_status_internal
update_task_status_internal-SameMarks fault db p task_id status now =
    attempt-SameMarks some db fault db
      (updated_status db p task_id status now (find_task_entry_in_project db p task_id))
      (λ id. refl)
      (updated_status-SameMarks db p task_id status now (find_task_entry_in_project db p task_id))

invalidated-SameMarks :
    (db : Db) (run_id server : Text) (payload : Text → Text → Text) (now : ℕ)
    (b : Option RunBinding)
    → SameMarks db (invalidate_binding db run_id server payload now b).0
unfolding invalidate_binding append_run_event set_run_status mark_bindings_stale_by_server
invalidated-SameMarks db run_id server payload now none = λ id. refl
invalidated-SameMarks db run_id server payload now (some b) = λ id.
    elim (Bool-cases (is_empty (trim_space server) || text_eq b.server_instance_id server)) [
      | inl e ↦ rw e refl
      | inr e ↦ rw e refl
    ]

module _ (setting : Setting) (faults : Faults) where
  dispatch-SameMarks :
      (a : Db) (project_id run_id task_id summary : Text) (r : Db × Option Text)
      → SameMarks a r.0
      → SameMarks a (dispatch setting faults project_id run_id task_id summary r).0
  unfolding dispatch
  dispatch-SameMarks a project_id run_id task_id summary (db, none) h =
      attempt-SameMarks inl a faults.enqueue_action db
        (
          enqueue_run_action db run_id (codes "run_completion_dispatch")
              (setting.dispatch_json task_id (trim_space summary)) setting.now,
          inr (record {
            project_id = project_id;
            run_id = run_id;
            task_id = task_id;
            summary = summary;
          }),
        )
        h (unfold enqueue_run_action in h)
  dispatch-SameMarks a project_id run_id task_id summary (db, some err) h = h

  with_task-SameMarks :
      (db : Db) (found : Project) (run_id : Text) (run : TaskRun) (summary : Text)
      (p : Option Project)
      → SameMarks db (with_task setting faults db found run_id run summary p).0
  unfolding with_task
  with_task-SameMarks db found run_id run summary none = λ id. refl
  with_task-SameMarks db found run_id run summary (some p) =
      let q = record p { project_id = found.project_id } in
      dispatch-SameMarks db found.project_id run_id run.task_id summary
        (update_task_status_internal faults.update_status db q run.task_id status_completed
          setting.now)
        (update_task_status_internal-SameMarks faults.update_status db q run.task_id
          status_completed setting.now)

  with_run-SameMarks :
      (db : Db) (run_id summary : Text) (found : Option (Project × TaskRun))
      → SameMarks db (with_run setting faults db run_id summary found).0
  unfolding with_run
  with_run-SameMarks db run_id summary none = λ id. refl
  with_run-SameMarks db run_id summary (some (found, run)) =
      let marked = mark_run_completed db run_id setting.now in
      let task =
        with_task setting faults marked found run_id run summary
          (find_task marked setting.projects run.task_id) in
      attempt-SameMarks inl db faults.mark_completed db (attempt inl faults.find_task marked task)
        (λ id. refl)
        (attempt-SameMarks inl db faults.find_task marked task
          (unfold mark_run_completed in λ id. refl)
          (λ id.
            with_task-SameMarks marked found run_id run summary _ id
            ∙ unfold mark_run_completed in refl))

  complete_run-SameMarks :
      (db : Db) (run_id summary : Text)
      → SameMarks db (complete_run_and_enqueue_actions setting faults db run_id summary).0
  unfolding complete_run_and_enqueue_actions
  complete_run-SameMarks db run_id summary =
      attempt-SameMarks inl db faults.find_run db
        (with_run setting faults db run_id summary (find_run db setting.projects run_id))
        (λ id. refl) (with_run-SameMarks db run_id summary (find_run db setting.projects run_id))

  finish_run-SameMarks :
      (a : Db) (run : TaskRun) (summary : Text) (r : Db × (Text ⊎ Notice))
      → SameMarks a r.0
      → SameMarks a (finish_run setting faults run summary r).db
  unfolding finish_run refused completed
  finish_run-SameMarks a run summary (db, inr notice) h = h
  finish_run-SameMarks a run summary (db, inl err) h = h

  with_binding-SameMarks :
      (a : Db) (run : TaskRun) (pane_target summary : Text) (r : Db × Bool)
      → SameMarks a r.0
      → SameMarks a (with_binding setting faults run pane_target summary r).db
  unfolding with_binding skipped
  with_binding-SameMarks a run pane_target summary (db, true) h = h
  with_binding-SameMarks a run pane_target summary (db, false) h =
      let idle =
        append_run_event db run.run_id (codes "auto_complete.pane_idle")
          (setting.idle_json pane_target) setting.now in
      finish_run-SameMarks a run summary
        (complete_run_and_enqueue_actions setting faults idle run.run_id summary)
        (λ id. complete_run-SameMarks idle run.run_id summary id ∙ unfold append_run_event in h id)

  invalidate-SameMarks :
      (db : Db) (run_id : Text)
      → SameMarks db
          (invalidate_binding_if_server_changed db run_id setting.current_server
            setting.restart_json setting.now).0
  unfolding invalidate_binding_if_server_changed
  invalidate-SameMarks db run_id =
      invalidated-SameMarks db run_id setting.current_server setting.restart_json setting.now
        (get_live_binding_by_run_id db run_id)

  finish_task-SameMarks :
      (a : Db) (p : Project) (task_id summary : Text) (r : Db × Option Text)
      → SameMarks a r.0
      → SameMarks a (finish_task setting faults p task_id summary r).db
  unfolding finish_task refused completed
  finish_task-SameMarks a p task_id summary (db, none) h = h
  finish_task-SameMarks a p task_id summary (db, some err) h = h

  unless-SameMarks :
      (a : Db) (fault : Option Text) (db : Db) (code : Text) (rest : Outcome)
      → SameMarks a db
      → SameMarks a rest.db
      → SameMarks a (unless fault db code rest).db
  unfolding unless refused
  unless-SameMarks a none db code rest h k = k
  unless-SameMarks a (some err) db code rest h k = h

  proceed-SameMarks :
      (db : Db) (p : Project) (task_id pane_target summary : Text) (run : Option TaskRun)
      → SameMarks db (proceed setting faults db p task_id pane_target summary run).db
  unfolding proceed
  proceed-SameMarks db p task_id pane_target summary none =
      let r =
        update_task_status_internal faults.update_status db p task_id status_completed
          setting.now in
      finish_task-SameMarks db p task_id summary r (
        update_task_status_internal-SameMarks faults.update_status db p task_id status_completed
          setting.now)
  proceed-SameMarks db p task_id pane_target summary (some run) =
      let r =
        invalidate_binding_if_server_changed db run.run_id setting.current_server
          setting.restart_json setting.now in
      unless-SameMarks db faults.binding_check db (codes "RUN_BINDING_CHECK_FAILED")
        (with_binding setting faults run pane_target summary r) (λ id. refl)
        (with_binding-SameMarks db run pane_target summary r (invalidate-SameMarks db run.run_id))

  pub look_up_run-SameMarks :
      (db : Db) (p : Project) (task_id pane_target summary : Text)
      → SameMarks db (look_up_run setting faults db p task_id pane_target summary).db
  unfolding look_up_run
  look_up_run-SameMarks db p task_id pane_target summary =
      let used =
        if is_empty (trim_space summary)
        then codes "auto-complete: pane idle and output stable"
        else trim_space summary in
      let run = find_live_running_run_by_pane_target_for_task db pane_target task_id in
      unless-SameMarks db faults.run_lookup db (codes "RUN_LOOKUP_FAILED")
        (proceed setting faults db p task_id pane_target used run) (λ id. refl)
        (proceed-SameMarks db p task_id pane_target used run)
