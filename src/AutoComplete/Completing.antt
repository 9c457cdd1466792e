-- ===== src/AutoComplete/Completing.antt =====
-- completeRunAndEnqueueActions of cli/internal/localapi/task_completion.go, with findRun, findTask and
-- updateTaskStatusInternal. Each statement of the database that may fail is given its error, if it
-- has one, as input.
use shellman.Base.{
  ◌⊎◌, inl, inr, ℕ, List, [], ◌∷◌, Option, none, some, if◌then◌else◌, Text, codes, text_eq,
  is_empty, trim_space,
}
use shellman.Runs.Tables.{
  Db, Task, TaskRun, get_run, update_where, mark_run_completed, enqueue_run_action,
}
use shellman.AutoComplete.Lookups.{Project, find_task_entry_in_project}

-- The errors of the statements.
pub record Faults : Type 0 where
  pub task_lookup : Option Text
  pub mark : Option Text
  pub run_lookup : Option Text
  pub binding_check : Option Text
  pub find_run : Option Text
  pub mark_completed : Option Text
  pub find_task : Option Text
  pub update_status : Option Text
  pub enqueue_action : Option Text

-- A statement that may fail, and what follows it.
unfoldable pub attempt {ℓ} : {R : Type ℓ} → (Text → R) → Option Text → Db → Db × R → Db × R
attempt fail none db rest = rest
attempt fail (some err) db rest = (db, fail err)

abbrev pub status_completed : Text
status_completed = codes "completed"

-- The update of `UpsertTaskMeta` with a status, for a row that is there.
unfoldable pub set_task_status : Db → Project → Text → Text → ℕ → Db
unfolding update_where
set_task_status db p task_id status now = record db {
  tasks =
      update_where (λ t. text_eq t.task_id task_id)
        (λ t. record t {
          project_id = if is_empty p.project_id then t.project_id else p.project_id;
          status = status;
          last_modified = now;
        })
        db.tasks;
}

-- `UpsertTaskMeta`, with the ids that it requires.
unfoldable pub upsert_status : Db → Project → Text → Text → ℕ → Db × Option Text
unfolding set_task_status
upsert_status db p task_id status now =
    if is_empty task_id
    then (db, some (codes "task id is required"))
    else if is_empty p.project_id
    then (db, some (codes "project id is required"))
    else (set_task_status db p task_id status now, none)

unfoldable pub updated_status : Db → Project → Text → Text → ℕ → Option Task → Db × Option Text
unfolding upsert_status
updated_status db p task_id status now none = (db, some (codes "task not found"))
updated_status db p task_id status now (some _) =
    if is_empty (trim_space status)
    then (db, some (codes "status is required"))
    else upsert_status db p task_id (trim_space status) now

unfoldable pub update_task_status_internal :
    Option Text → Db → Project → Text → Text → ℕ → Db × Option Text
unfolding attempt updated_status find_task_entry_in_project
update_task_status_internal fault db p task_id status now =
    attempt some fault db
      (updated_status db p task_id status now (find_task_entry_in_project db p task_id))

-- The first project with the task.
unfoldable pub find_task : Db → List Project → Text → Option Project
unfolding find_task_entry_in_project
find_task db [] task_id = none
find_task db (p ∷ ps) task_id = elim (find_task_entry_in_project db p task_id) [
  | none ↦ find_task db ps task_id
  | some _ ↦ some p
]

-- `findRun`: no statement for a run names a repository, so the first project finds every run.
unfoldable pub find_run : Db → List Project → Text → Option (Project × TaskRun)
unfolding get_run
find_run db [] run_id = none
find_run db (p ∷ ps) run_id = elim (get_run db run_id) [
  | none ↦ find_run db ps run_id
  | some run ↦ some (p, run)
]

-- The clock, the current tmux server, and the JSON of the payloads.
pub record Setting : Type 0 where
  pub projects : List Project
  pub current_server : Text
  pub now : ℕ
  pub restart_json : Text → Text → Text
  pub idle_json : Text → Text
  pub dispatch_json : Text → Text → Text

-- What the other parts are told when something is completed (the dispatched actions and the events):
-- the id of the project, of the run (if there is one) and of the task, and the summary.
pub record Notice : Type 0 where
  pub project_id : Text
  pub run_id : Text
  pub task_id : Text
  pub summary : Text

module _ (setting : Setting) (faults : Faults) where
  -- From the update of the task's status on.
  unfoldable pub dispatch : Text → Text → Text → Text → Db × Option Text → Db × (Text ⊎ Notice)
  unfolding attempt enqueue_run_action
  dispatch project_id run_id task_id summary (db, some err) = (db, inl err)
  dispatch project_id run_id task_id summary (db, none) = attempt inl faults.enqueue_action db (
    enqueue_run_action db run_id (codes "run_completion_dispatch")
        (setting.dispatch_json task_id (trim_space summary)) setting.now,
    inr (record { project_id = project_id; run_id = run_id; task_id = task_id; summary = summary }),
  )

  -- From `findTask` on; the status is changed with the store of the task's project, but with the
  -- project id that `findRun` gave.
  unfoldable pub with_task :
      Db → Project → Text → TaskRun → Text → Option Project → Db × (Text ⊎ Notice)
  unfolding update_task_status_internal dispatch
  with_task db found run_id run summary none = (db, inl (codes "task not found"))
  with_task db found run_id run summary (some p) =
      dispatch found.project_id run_id run.task_id summary (
        update_task_status_internal faults.update_status db
          (record p { project_id = found.project_id }) run.task_id status_completed setting.now)

  unfoldable pub with_run : Db → Text → Text → Option (Project × TaskRun) → Db × (Text ⊎ Notice)
  unfolding attempt mark_run_completed with_task find_task
  with_run db run_id summary none = (db, inl (codes "run not found"))
  with_run db run_id summary (some (found, run)) =
      let marked = mark_run_completed db run_id setting.now in
      attempt inl faults.mark_completed db (
        attempt inl faults.find_task marked (
          with_task marked found run_id run summary
            (find_task marked setting.projects run.task_id)))

  -- completeRunAndEnqueueActions: the tables, and the error or what the other parts are told.
  unfoldable pub complete_run_and_enqueue_actions : Db → Text → Text → Db × (Text ⊎ Notice)
  unfolding attempt with_run find_run
  complete_run_and_enqueue_actions db run_id summary =
      attempt inl faults.find_run db
        (with_run db run_id summary (find_run db setting.projects run_id))
