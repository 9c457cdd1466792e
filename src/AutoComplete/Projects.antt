-- ===== src/AutoComplete/Projects.antt =====
-- completeRunAndEnqueueActions with several projects: what is written, and when it fails after it
-- has already completed the run.
use shellman.Base.{
  ◌⊎◌, inl, inr, ℕ, ◌≡◌, refl, ap, ◌∙◌, List, [], ◌∷◌, Option, none, some, arith, Text, codes,
  trim_space, is_empty, false,
}
use shellman.Runs.Tables.{Db, Task, TaskRun, get_run, mark_run_completed, enqueue_run_action}
use shellman.AutoComplete.Lookups.{Project, find_task_entry_in_project}
use shellman.AutoComplete.Completing.{
  Notice, Faults, Setting, attempt, set_task_status, upsert_status, updated_status,
  update_task_status_internal, find_task, find_run, dispatch, with_task, with_run, status_completed,
  complete_run_and_enqueue_actions,
}

abbrev pub no_faults : Faults
no_faults = record {
  task_lookup = none;
  mark = none;
  run_lookup = none;
  binding_check = none;
  find_run = none;
  mark_completed = none;
  find_task = none;
  update_status = none;
  enqueue_action = none;
}

-- The completion of a run changes no task.
find_task-mark_run_completed :
    (db : Db) (run_id : Text) (now : ℕ) (ps : List Project) (task_id : Text)
    → find_task (mark_run_completed db run_id now) ps task_id ≡ find_task db ps task_id
unfolding find_task find_task_entry_in_project mark_run_completed
find_task-mark_run_completed db run_id now [] task_id = refl
find_task-mark_run_completed db run_id now (p ∷ ps) task_id =
    ground (arith, find_task-mark_run_completed db run_id now ps task_id)

entry-mark_run_completed :
    (db : Db) (run_id : Text) (now : ℕ) (p : Project) (task_id : Text)
    → find_task_entry_in_project (mark_run_completed db run_id now) p task_id
      ≡ find_task_entry_in_project db p task_id
unfolding find_task_entry_in_project mark_run_completed
entry-mark_run_completed db run_id now p task_id = refl

find_run_first :
    (db : Db) (p : Project) (ps : List Project) (run_id : Text) (run : TaskRun)
    → get_run db run_id ≡ some run
    → find_run db (p ∷ ps) run_id ≡ some (p, run)
unfolding find_run
find_run_first db p ps run_id run e = ground (arith, e)

-- What is left when nothing but the lookup of the task's entry can fail: the run is completed in
-- any case; with an entry, the task has the status `completed`, the action is in the outbox, and the
-- other parts are told the run, its task and the summary under the id of the first project.
abbrev pub Written :
    Setting → Db → Project → Text → TaskRun → Text → Option Task → Db × (Text ⊎ Notice)
Written setting db q run_id run summary none = (db, inl (codes "task not found"))
Written setting db q run_id run summary (some t) = (
  enqueue_run_action (set_task_status db q run.task_id status_completed setting.now) run_id
      (codes "run_completion_dispatch") (setting.dispatch_json run.task_id (trim_space summary))
      setting.now,
  inr (record {
    project_id = q.project_id;
    run_id = run_id;
    task_id = run.task_id;
    summary = summary;
  }),
)

written :
    (setting : Setting) (db : Db) (q : Project) (run_id : Text) (run : TaskRun) (summary : Text)
    (t : Option Task)
    → is_empty run.task_id ≡ false
    → is_empty q.project_id ≡ false
    → dispatch setting no_faults q.project_id run_id run.task_id summary
        (updated_status db q run.task_id status_completed setting.now t)
      ≡ Written setting db q run_id run summary t
unfolding dispatch updated_status upsert_status attempt
written setting db q run_id run summary none named owned = refl
written setting db q run_id run summary (some t) named owned =
    unfold trim_space in rw named (rw owned refl)

-- Completing a run that is in the tables and whose task some project has, with no fault of the
-- database, and the ids of the task and the first project not empty: the run is completed. The task
-- gets its status, the action its place in the outbox, and the other parts are told, just if the
-- repository of the task's project has an entry of the task under the id of the FIRST project; if it
-- has none, the call fails with `task not found`, and the run stays completed.
pub complete_run_and_enqueue_actions-Written :
    (setting : Setting) (db : Db) (run_id summary : Text) (first p : Project) (ps : List Project)
    (run : TaskRun)
    → setting.projects ≡ first ∷ ps
    → get_run db run_id ≡ some run
    → find_task db (first ∷ ps) run.task_id ≡ some p
    → is_empty run.task_id ≡ false
    → is_empty first.project_id ≡ false
    → let q = record p { project_id = first.project_id } in
      complete_run_and_enqueue_actions setting no_faults db run_id summary
      ≡ Written setting
          (mark_run_completed db run_id setting.now)
          q
          run_id
          run
          summary
          (find_task_entry_in_project db q run.task_id)
unfolding complete_run_and_enqueue_actions attempt with_run with_task update_task_status_internal
complete_run_and_enqueue_actions-Written setting db run_id summary first p ps run projects e f named
      owned =
    let now = setting.now in
    let marked = mark_run_completed db run_id now in
    let q = record p { project_id = first.project_id } in
    ap (with_run setting no_faults db run_id summary)
      (ap (λ qs. find_run db qs run_id) projects ∙ find_run_first db first ps run_id run e)
    ∙ ap (with_task setting no_faults marked first run_id run summary) (
        find_task-mark_run_completed db run_id now setting.projects run.task_id
        ∙ ap (λ qs. find_task db qs run.task_id) projects
        ∙ f)
    ∙ written setting marked q run_id run summary (find_task_entry_in_project marked q run.task_id)
        named owned
    ∙ ap (Written setting marked q run_id run summary)
        (entry-mark_run_completed db run_id now q run.task_id)
