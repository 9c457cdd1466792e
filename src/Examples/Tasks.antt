-- ===== src/Examples/Tasks.antt =====
-- Examples of cli/internal/projectstate and cli/internal/localapi.
use shellman.Base.{
  ◌≡◌, ◌≢◌, refl, Bool, true, false, ◌&&◌, [], ◌∷◌, some, arith, if◌then◌else◌, Text, codes,
  text_eq, text_eq_iff, trim_space,
}
use shellman.Runs.Tables.{
  TaskRun, RunBinding, Task, Db, get_run, get_binding_by_run_id, is_live_of,
  mark_bindings_stale_by_server, try_mark_task_auto_progress_observed,
}
use shellman.Runs.Bindings.{
  map_option, is_bound_to, mark_bindings_stale_by_server_lem, invalidate_binding_if_server_changed,
  invalidate_binding_if_server_changed-restart,
}
use shellman.Runs.Progress.{mark_of, is_newer, try_mark_task_auto_progress_observed-mark}
use shellman.Runs.Lookup.{
  is_live_running_on, is_bound, latest_run, LatestOn, find_live_running_run_by_pane_target,
  find_live_running_run_by_pane_target-LatestOn,
}

abbrev run_id : Text
run_id = codes "r1"

abbrev server : Text
server = codes "tmux:7"

-- A completed run, whose binding is still live.
abbrev completed : TaskRun
completed = record {
  run_id = run_id;
  task_id = codes "t1";
  run_status = codes "completed";
  started_at = 1;
  completed_at = 5;
  updated_at = 5;
  last_error = [];
}

abbrev binding : RunBinding
binding = record {
  run_id = run_id;
  server_instance_id = server;
  pane_id = codes "e2e:0.0";
  pane_target = codes "e2e:0.0";
  binding_status = codes "live";
  stale_reason = [];
  updated_at = 1;
}

abbrev db : Db
db = record {
  tasks = [];
  task_runs = completed ∷ [];
  run_bindings = binding ∷ [];
  completion_inbox = [];
  run_events = [];
  action_outbox = [];
}

the_run : get_run db run_id ≡ some completed
unfolding get_run text_eq
the_run = refl

the_binding : get_binding_by_run_id db run_id ≡ some binding
unfolding get_binding_by_run_id text_eq
the_binding = refl

live : is_live_of server binding ≡ true
unfolding is_live_of text_eq
live = refl

abbrev restarted : Text
restarted = codes "tmux_restarted"

mark_bindings_stale_by_server_lem_example :
    let after = mark_bindings_stale_by_server db server restarted 9 in
    (get_binding_by_run_id after run_id
      ≡ map_option
          (λ b.
            if text_eq b.server_instance_id server && text_eq b.binding_status (codes "live")
            then record b {
              binding_status = codes "stale";
              stale_reason = restarted;
              updated_at = 9;
            }
            else b)
          (get_binding_by_run_id db run_id))
    × (get_run after run_id
        ≡ map_option
            (λ r.
              if is_bound_to server r.run_id db.run_bindings
              then record r { run_status = codes "needs_rebind"; updated_at = 9 }
              else r)
            (get_run db run_id))
mark_bindings_stale_by_server_lem_example =
    mark_bindings_stale_by_server_lem db server restarted 9 run_id

abbrev now_on : Text
now_on = codes "tmux:8"

abbrev no_payload : Text → Text → Text
no_payload _ _ = []

abbrev after_restart : Db × Bool
after_restart = invalidate_binding_if_server_changed db run_id now_on no_payload 9

differ : text_eq binding.server_instance_id now_on ≡ false
unfolding text_eq
differ = refl

other_server : binding.server_instance_id ≢ now_on
other_server e = ground (arith, (text_eq_iff binding.server_instance_id now_on).1 e, differ)

trimmed_server : trim_space now_on ≡ now_on
unfolding trim_space
trimmed_server = refl

invalidate_binding_if_server_changed-restart_example :
    (after_restart.1 ≡ true)
    × (get_run after_restart.0 run_id
        ≡ some (record completed { run_status = codes "needs_rebind"; updated_at = 9 }))
    × (get_binding_by_run_id after_restart.0 run_id
        ≡ some (record binding {
          binding_status = codes "stale";
          stale_reason = codes "tmux_restarted";
          updated_at = 9;
        }))
    × (after_restart.0.run_events
        ≡ record { run_id = run_id; kind = restarted; payload = []; created_at = 9 } ∷ [])
invalidate_binding_if_server_changed-restart_example =
    invalidate_binding_if_server_changed-restart db run_id now_on no_payload 9 completed binding
      the_run the_binding refl other_server (rw trimmed_server (λ e. cc))

abbrev observed : Task
observed = record {
  task_id = codes "t1";
  repo_root = [];
  project_id = codes "p";
  parent_task_id = [];
  title = [];
  active_adapter = [];
  status = [];
  sidecar_mode = [];
  task_role = [];
  created_at = 0;
  last_modified = 0;
  last_auto_progress_at = 0;
  archived = false;
}

trimmed_task : trim_space observed.task_id ≡ codes "t1"
unfolding trim_space
trimmed_task = refl

abbrev marked : Db × Bool
marked = try_mark_task_auto_progress_observed db [] observed 7 8

try_mark_task_auto_progress_observed-mark_example :
    (marked.1 ≡ is_newer (mark_of (trim_space observed.task_id) db.tasks) 7)
    × (mark_of (codes "t1") marked.0.tasks ≡ (
        if marked.1 && text_eq (trim_space observed.task_id) (codes "t1")
        then some 7
        else mark_of (codes "t1") db.tasks))
try_mark_task_auto_progress_observed-mark_example =
    try_mark_task_auto_progress_observed-mark db [] observed 7 8 (codes "t1")
      (rw trimmed_task (λ e. cc)) (omega arith)

-- The run before it was completed.
abbrev running_db : Db
running_db = record db { task_runs = record completed { run_status = codes "running" } ∷ [] }

found_running :
    find_live_running_run_by_pane_target running_db (codes "e2e:0.0")
    ≡ some (record completed { run_status = codes "running" })
unfolding find_live_running_run_by_pane_target latest_run is_bound is_live_running_on text_eq
found_running = refl

find_live_running_run_by_pane_target-LatestOn_example :
    LatestOn
      (codes "e2e:0.0")
      running_db.task_runs
      running_db.run_bindings
      (find_live_running_run_by_pane_target running_db (codes "e2e:0.0"))
find_live_running_run_by_pane_target-LatestOn_example =
    find_live_running_run_by_pane_target-LatestOn running_db (codes "e2e:0.0")
