-- ===== src/Examples/Completions.antt =====
-- Examples of cli/internal/localapi/run_autocomplete.go.
use shellman.Base.{
  inl, ◌≡◌, refl, false, List, [], ◌∷◌, some, arith, Text, codes, text_eq, trim_space, to_lower,
  find,
}
use shellman.Runs.Tables.{
  Db, Task, TaskRun, get_run, mark_run_completed, upsert_progress, progress_row,
}
use shellman.Policy.{normalize_sidecar_mode}
use shellman.AutoComplete.Lookups.{
  Project, Found, find_task_by_pane_target, find_task_entry_in_project,
}
use shellman.AutoComplete.Completing.{Setting, find_task, complete_run_and_enqueue_actions}
use shellman.AutoComplete.Handler.{
  AutoCompleteByPaneInput, at_second, auto_complete_by_pane, skipped, is_pane_actor, advises,
  Outcome,
}
use shellman.AutoComplete.Effects.{Told, auto_complete_by_pane-Told}
use shellman.AutoComplete.Once.{IsPaneCall, auto_complete_by_pane_once}
use shellman.AutoComplete.Projects.{no_faults, Written, complete_run_and_enqueue_actions-Written}

abbrev pane : Text
pane = codes "e2e:0.0"

abbrev task : Task
task = record {
  task_id = codes "t1";
  repo_root = codes "/a";
  project_id = codes "p1";
  parent_task_id = [];
  title = [];
  active_adapter = [];
  status = codes "running";
  sidecar_mode = codes "autopilot";
  task_role = codes "full";
  created_at = 1;
  last_modified = 2;
  last_auto_progress_at = 0;
  archived = false;
}

abbrev project : Project
project = record {
  project_id = codes "p1";
  repo_root = codes "/a";
  panes =
      record { task_id = codes "t1"; pane_uuid = []; pane_id = codes "%1"; pane_target = pane }
      ∷ [];
}

abbrev other : Project
other = record { project_id = codes "p0"; repo_root = codes "/b"; panes = [] }

abbrev run : TaskRun
run = record {
  run_id = codes "r1";
  task_id = codes "t1";
  run_status = codes "running";
  started_at = 1;
  completed_at = 0;
  updated_at = 1;
  last_error = [];
}

abbrev db : Db
db = record {
  tasks = task ∷ [];
  task_runs = run ∷ [];
  run_bindings = [];
  completion_inbox = [];
  run_events = [];
  action_outbox = [];
}

abbrev setting : List Project → Setting
setting projects = record {
  projects = projects;
  current_server = codes "s1";
  now = 9;
  restart_json = λ a b. a;
  idle_json = λ p. p;
  dispatch_json = λ t s. t;
}

abbrev input : AutoCompleteByPaneInput
input = record {
  pane_target = pane;
  summary = [];
  trigger_source = codes "pane-actor";
  observed_last_active_at = at_second 5;
}

auto_complete_by_pane-Told_example :
    Told
      (auto_complete_by_pane (setting (project ∷ [])) no_faults db input).db
      (auto_complete_by_pane (setting (project ∷ [])) no_faults db input).reply
      (auto_complete_by_pane (setting (project ∷ [])) no_faults db input).notice
auto_complete_by_pane-Told_example =
    auto_complete_by_pane-Told (setting (project ∷ [])) no_faults db input

abbrev found : Found
found = record { project = project; entry = task }

first_call : IsPaneCall (setting (project ∷ [])) no_faults db input 5 found
unfolding trim_space find_task_by_pane_target text_eq find is_pane_actor advises
    normalize_sidecar_mode to_lower
first_call = record {
  named = λ e. cc;
  looked_up = refl;
  found = refl;
  has_id = λ e. cc;
  from_pane = refl;
  acting = refl;
  observed = refl;
  timed = omega arith;
  marked = refl;
}

abbrev after : Outcome
after = auto_complete_by_pane (setting (project ∷ [])) no_faults db input

-- The task after the first call.
abbrev found_after : Found
found_after = record {
  project = project;
  entry = record task { status = codes "completed"; last_modified = 9; last_auto_progress_at = 5 };
}

second_call : IsPaneCall (setting (project ∷ [])) no_faults after.db input 5 found_after
unfolding trim_space find_task_by_pane_target text_eq find is_pane_actor advises
    normalize_sidecar_mode to_lower auto_complete_by_pane upsert_progress progress_row
second_call = record {
  named = λ e. cc;
  looked_up = refl;
  found = refl;
  has_id = λ e. cc;
  from_pane = refl;
  acting = refl;
  observed = refl;
  timed = omega arith;
  marked = refl;
}

auto_complete_by_pane_once_example :
    auto_complete_by_pane (setting (project ∷ [])) no_faults after.db input
    ≡ skipped after.db
        (codes "duplicate-observed-last-active-at")
        []
        (trim_space found_after.entry.task_id)
        (codes "skipped")
auto_complete_by_pane_once_example =
    auto_complete_by_pane_once (setting (project ∷ [])) (setting (project ∷ [])) no_faults no_faults
      db input input 5 5 found found_after first_call second_call refl (omega arith)

run_there : get_run db (codes "r1") ≡ some run
unfolding get_run text_eq
run_there = refl

task_there : find_task db (other ∷ project ∷ []) (codes "t1") ≡ some project
unfolding find_task text_eq find
task_there = refl

complete_run_and_enqueue_actions-Written_example :
    complete_run_and_enqueue_actions
      (setting (other ∷ project ∷ []))
      no_faults
      db
      (codes "r1")
      (codes "done")
    ≡ Written
        (setting (other ∷ project ∷ []))
        (mark_run_completed db (codes "r1") 9)
        (record project { project_id = codes "p0" })
        (codes "r1")
        run
        (codes "done")
        (find_task_entry_in_project db (record project { project_id = codes "p0" }) (codes "t1"))
complete_run_and_enqueue_actions-Written_example =
    complete_run_and_enqueue_actions-Written (setting (other ∷ project ∷ [])) db (codes "r1")
      (codes "done") other project (project ∷ []) run refl run_there task_there refl refl

-- The task of the second project is not found under the id of the first one, though the run is
-- completed.
second_project_run :
    (complete_run_and_enqueue_actions
      (setting (other ∷ project ∷ []))
      no_faults
      db
      (codes "r1")
      (codes "done"))
    ≡ (mark_run_completed db (codes "r1") 9, inl (codes "task not found"))
unfolding complete_run_and_enqueue_actions text_eq find get_run
second_project_run = refl
