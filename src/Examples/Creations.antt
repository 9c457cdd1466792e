-- ===== src/Examples/Creations.antt =====
-- Examples of createTaskWithRole of cli/internal/localapi/routes_tasks.go.
use shellman.Base.{◌≡◌, refl, inr, true, false, [], ◌∷◌, Text, codes, text_eq, trim_space, find}
use shellman.Runs.Tables.{Db, Task}
use shellman.Policy.{normalize_task_role}
use shellman.AutoComplete.Lookups.{Project, find_task_entry_in_project}
use shellman.Creation.{NewTask, insert_task, has_task, parent_role, create_task_with_role}

abbrev task : Text → Text → Task
task id role = record {
  task_id = id;
  repo_root = codes "/a";
  project_id = codes "p1";
  parent_task_id = [];
  title = [];
  active_adapter = [];
  status = codes "running";
  sidecar_mode = codes "observer";
  task_role = role;
  created_at = 1;
  last_modified = 2;
  last_auto_progress_at = 0;
  archived = false;
}

abbrev project : Project
project = record { project_id = codes "p1"; repo_root = codes "/a"; panes = [] }

abbrev with_task : Task → Db
with_task t = record {
  tasks = t ∷ [];
  task_runs = [];
  run_bindings = [];
  completion_inbox = [];
  run_events = [];
  action_outbox = [];
}

abbrev request : Text → Text → Text → NewTask
request id parent role = record {
  task_id = id;
  parent_task_id = parent;
  title = codes "build";
  requested_role = role;
  root_mode = codes "observer";
  now = 9;
}

abbrev db : Db
db = with_task (task (codes "t1") (codes "planner"))

abbrev after : Db
after = (create_task_with_role db project (request (codes "t2") (codes "t1") (codes " Executor"))).0

-- An executor that has been archived is not found, so that it counts as full and delegates.
archived_executor :
    (create_task_with_role
      (with_task (record (task (codes "t2") (codes "executor")) { archived = true }))
      project
      (request (codes "t3") (codes "t2") (codes "full"))).1
    ≡ inr (codes "t3")
unfolding create_task_with_role parent_role normalize_task_role trim_space text_eq
    find_task_entry_in_project find has_task insert_task
archived_executor = refl
