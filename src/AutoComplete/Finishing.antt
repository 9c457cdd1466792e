-- ===== src/AutoComplete/Finishing.antt =====
-- completeRunAndEnqueueActions: what is told and the state of the run, when it does not fail.
use shellman.Base.{
  ℕ, ◌≡◌, refl, ap, ◌∙◌, ◌⊎◌, inl, inr, Bool, true, false, List, [], ◌∷◌, Option, none, some, arith,
  Text, codes, text_eq, text_eq_iff, is_empty, trim_space, if◌then◌else◌, find,
}
use shellman.Runs.Tables.{Db, Task, TaskRun, get_run, mark_run_completed, enqueue_run_action}
use shellman.Runs.Bindings.{find-update_where, own_key, map_option}
use shellman.AutoComplete.Lookups.{Project, find_task_entry_in_project}
use shellman.AutoComplete.Completing.{
  Faults, Setting, Notice, attempt, set_task_status, upsert_status, updated_status,
  update_task_status_internal, find_task, find_run, status_completed, dispatch, with_task, with_run,
  complete_run_and_enqueue_actions,
}

-- The run with the id is in the tables, and completed.
unfoldable pub IsCompleted : Db → Text → Type 0
IsCompleted db run_id =
    (run : TaskRun) × (get_run db run_id ≡ some run) × (run.run_status ≡ codes "completed")

IsCompleted-runs :
    (a b : Db) (run_id : Text)
    → b.task_runs ≡ a.task_runs
    → IsCompleted a run_id
    → IsCompleted b run_id
unfolding IsCompleted get_run
IsCompleted-runs a b run_id e (run, found, done) =
    (run, ap (λ rs. find (λ (r : TaskRun). text_eq r.run_id run_id) rs) e ∙ found, done)

mark_run_completed-IsCompleted :
    (db : Db) (run_id : Text) (now : ℕ) (run : TaskRun)
    → get_run db run_id ≡ some run
    → IsCompleted (mark_run_completed db run_id now) run_id
unfolding IsCompleted get_run mark_run_completed map_option
mark_run_completed-IsCompleted db run_id now run e = (
  record run { run_status = codes "completed"; completed_at = now; updated_at = now },
  find-update_where (λ r. text_eq r.run_id run_id) (λ r. text_eq r.run_id run_id)
        (λ r. record r { run_status = codes "completed"; completed_at = now; updated_at = now })
        db.task_runs (λ r. refl)
      ∙ (rw (e, map_option, (text_eq_iff run.run_id run_id).1 (own_key db.task_runs run_id run e))),
  refl,
)

-- The update of a task changes no run.
updated-runs :
    (blank : Bool) (db : Db) (err : Text) (rest : Db × Option Text)
    → rest.0.task_runs ≡ db.task_runs
    → (if blank then (db, some err) else rest).0.task_runs ≡ db.task_runs
updated-runs true db err rest h = refl
updated-runs false db err rest h = h

updated_status-runs :
    (db : Db) (p : Project) (task_id status : Text) (now : ℕ) (t : Option Task)
    → (updated_status db p task_id status now t).0.task_runs ≡ db.task_runs
unfolding updated_status upsert_status set_task_status
updated_status-runs db p task_id status now none = refl
updated_status-runs db p task_id status now (some t) =
    updated-runs (is_empty (trim_space status)) db _ _
      (updated-runs (is_empty task_id) db _ _ (updated-runs (is_empty p.project_id) db _ _ refl))

update_task_status_internal-runs :
    (fault : Option Text) (db : Db) (p : Project) (task_id status : Text) (now : ℕ)
    → (update_task_status_internal fault db p task_id status now).0.task_runs ≡ db.task_runs
unfolding update_task_status_internal attempt
update_task_status_internal-runs (some err) db p task_id status now = refl
update_task_status_internal-runs none db p task_id status now =
    updated_status-runs db p task_id status now (find_task_entry_in_project db p task_id)

-- What has been done and told, unless the call failed.
unfoldable pub Finished : Text → Text → Text → Db × (Text ⊎ Notice) → Type 0
Finished run_id task_id summary (db, inl err) = Unit
Finished run_id task_id summary (db, inr notice) =
    (notice.run_id ≡ run_id)
    × (notice.task_id ≡ task_id)
    × (notice.summary ≡ summary)
    × IsCompleted db run_id

attempt-Finished :
    (run_id task_id summary : Text) (fault : Option Text) (db : Db) (rest : Db × (Text ⊎ Notice))
    → Finished run_id task_id summary rest
    → Finished run_id task_id summary (attempt inl fault db rest)
unfolding attempt Finished
attempt-Finished run_id task_id summary none db rest h = h
attempt-Finished run_id task_id summary (some err) db rest h = tt

module _ (setting : Setting) (faults : Faults) where
  dispatch-Finished :
      (project_id run_id task_id summary : Text) (r : Db × Option Text)
      → IsCompleted r.0 run_id
      → Finished run_id task_id summary
          (dispatch setting faults project_id run_id task_id summary r)
  unfolding dispatch Finished
  dispatch-Finished project_id run_id task_id summary (db, some err) h = tt
  dispatch-Finished project_id run_id task_id summary (db, none) h =
      attempt-Finished run_id task_id summary faults.enqueue_action db _
        (refl, refl, refl, IsCompleted-runs db _ run_id (unfold enqueue_run_action in refl) h)

  with_task-Finished :
      (db : Db) (first : Project) (run_id : Text) (run : TaskRun) (summary : Text)
      (p : Option Project)
      → IsCompleted db run_id
      → Finished run_id run.task_id summary (with_task setting faults db first run_id run summary p)
  unfolding with_task Finished
  with_task-Finished db first run_id run summary none h = tt
  with_task-Finished db first run_id run summary (some p) h =
      dispatch-Finished first.project_id run_id run.task_id summary _ (
        IsCompleted-runs db _ run_id
          (update_task_status_internal-runs faults.update_status db
            (record p { project_id = first.project_id }) run.task_id status_completed setting.now)
          h)

  find_run-cases :
      (db : Db) (ps : List Project) (run_id : Text) (run : TaskRun)
      → get_run db run_id ≡ some run
      → (find_run db ps run_id ≡ none) ⊎ ((p : Project) × (find_run db ps run_id ≡ some (p, run)))
  find_run-cases db [] run_id run e = inl (unfold find_run in refl)
  find_run-cases db (p ∷ ps) run_id run e = inr (p, unfold find_run in ground (arith, e))

  with_run-Finished :
      (db : Db) (run_id summary : Text) (first : Project) (run : TaskRun)
      → get_run db run_id ≡ some run
      → Finished run_id run.task_id summary
          (with_run setting faults db run_id summary (some (first, run)))
  unfolding with_run
  with_run-Finished db run_id summary first run e =
      let marked = mark_run_completed db run_id setting.now in
      attempt-Finished run_id run.task_id summary faults.mark_completed db _ (
        attempt-Finished run_id run.task_id summary faults.find_task marked _ (
          with_task-Finished marked first run_id run summary
            (find_task marked setting.projects run.task_id)
            (mark_run_completed-IsCompleted db run_id setting.now run e)))

  -- Completing a run that is in the tables, whatever fails: if it does not fail, then the run is
  -- completed, and the run, its task and the summary are told.
  pub complete_run_and_enqueue_actions-Finished :
      (db : Db) (run_id summary : Text) (run : TaskRun)
      → get_run db run_id ≡ some run
      → Finished run_id run.task_id summary
          (complete_run_and_enqueue_actions setting faults db run_id summary)
  unfolding complete_run_and_enqueue_actions
  complete_run_and_enqueue_actions-Finished db run_id summary run e =
      attempt-Finished run_id run.task_id summary faults.find_run db _
        (elim (find_run-cases db setting.projects run_id run e) [
          | inl f ↦ rw f (unfold with_run Finished in tt)
          | inr (p, f) ↦ rw f (with_run-Finished db run_id summary p run e)
        ])
