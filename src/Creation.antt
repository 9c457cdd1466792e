-- ===== src/Creation.antt =====
-- createTaskWithRole of cli/internal/localapi/routes_tasks.go, with InsertTask of
-- cli/internal/projectstate/run_store.go, on the tables of Runs. The project is one that was found;
-- the new id, the mode of a root task and the clock are part of the request. The columns of `tasks`
-- that Runs leaves out are empty in a new row. The mode that the supervisor of the task's agent is told
-- at the end is left out.
use shellman.Base.{
  ℕ, ◌≡◌, ◌≢◌, ◌⊎◌, inl, inr, Bool, true, false, not, ◌&&◌, ◌||◌, List, [], ◌∷◌, Option, none, some,
  is_some, find, if◌then◌else◌, Text, codes, text_eq, is_empty, trim_space,
}
use shellman.Runs.Tables.{Db, Task, create_row, or_default}
use shellman.Policy.{normalize_task_role, valid_sidecar_mode, normalize_sidecar_mode}
use shellman.AutoComplete.Lookups.{Project, find_task_entry_in_project}
use shellman.AutoComplete.Completing.{upsert_status}
pub mod Listing
pub mod Roles

pub record NewTask : Type 0 where
  pub task_id : Text
  pub parent_task_id : Text
  pub title : Text
  pub requested_role : Text
  pub root_mode : Text
  pub now : ℕ

pub data CreateError : Type 0 where
  invalid_task_role : CreateError
  executor_cannot_delegate : CreateError
  planner_only_spawn_executor : CreateError
  not_inserted : CreateError
  parent_not_updated : Text → CreateError

unfoldable pub has_task : Db → Text → Bool
unfolding find
has_task db task_id = is_some (find (λ t. text_eq t.task_id task_id) db.tasks)

-- The row that InsertTask builds of a record.
unfoldable pub new_task_row : Text → Task → ℕ → Task
unfolding or_default
new_task_row repo_root t now = record t {
  repo_root = repo_root;
  active_adapter = trim_space t.active_adapter;
  status = or_default t.status (codes "pending");
  sidecar_mode = or_default (trim_space t.sidecar_mode) (codes "advisor");
  task_role = or_default (trim_space t.task_role) (codes "full");
  created_at = now;
  last_modified = now;
  last_auto_progress_at = 0;
  archived = false;
}

unfoldable pub with_tasks : Db → Option (List Task) → Option Db
with_tasks db none = none
with_tasks db (some rows) = some (record db { tasks = rows })

-- InsertTask; `none` is the database's refusal of a task id that is taken.
unfoldable pub insert_task : Db → Text → Task → ℕ → Option Db
unfolding with_tasks create_row has_task new_task_row
insert_task db repo_root t now =
    with_tasks db (create_row (has_task db t.task_id) (new_task_row repo_root t now) db.tasks)

-- The role of the parent; an unknown one counts as full, and so does that of a parent that is not
-- found, whose entry is empty.
unfoldable pub parent_role : Text → Text
unfolding normalize_task_role
parent_role role = or_default (normalize_task_role role) (codes "full")

unfoldable pub entry_role : Option Task → Text
unfolding parent_role
entry_role none = parent_role []
entry_role (some parent) = parent_role parent.task_role

unfoldable pub child_mode : Text → Option Task → Text
unfolding valid_sidecar_mode normalize_sidecar_mode
child_mode root_mode none = root_mode
child_mode root_mode (some parent) =
    if valid_sidecar_mode parent.sidecar_mode
    then normalize_sidecar_mode parent.sidecar_mode
    else root_mode

-- The role of the parent, and of the child.
unfoldable pub refusal : Text → Text → Option CreateError
refusal above role =
    if text_eq above (codes "executor")
    then some executor_cannot_delegate
    else if text_eq above (codes "planner") && not (text_eq role (codes "executor"))
    then some planner_only_spawn_executor
    else none

-- The parent is put to `waiting_children`.
unfoldable pub update_parent : Db → Project → Text → ℕ → Option Task → Db × Option Text
unfolding upsert_status
update_parent db p parent_id now none = (db, none)
update_parent db p parent_id now (some parent) =
    if text_eq parent.status (codes "waiting_children")
    then (db, none)
    else upsert_status db p parent_id (codes "waiting_children") now

unfoldable pub updated : Text → Db × Option Text → Db × (CreateError ⊎ Text)
updated task_id (db, none) = (db, inr task_id)
updated task_id (db, some err) = (db, inl (parent_not_updated err))

unfoldable pub after_insert : Db → Project → NewTask → Text → Option Db → Db × (CreateError ⊎ Text)
unfolding updated update_parent find_task_entry_in_project
after_insert old p n parent_id none = (old, inl not_inserted)
after_insert old p n parent_id (some db) =
    if is_empty parent_id
    then (db, inr n.task_id)
    else updated n.task_id
        (update_parent db p parent_id n.now (find_task_entry_in_project db p parent_id))

-- The record that is inserted.
unfoldable pub new_record : Project → NewTask → Text → Text → Text → Task
new_record p n parent_id role mode = record {
  task_id = n.task_id;
  repo_root = [];
  project_id = p.project_id;
  parent_task_id = parent_id;
  title = n.title;
  active_adapter = [];
  status = codes "pending";
  sidecar_mode = mode;
  task_role = role;
  created_at = 0;
  last_modified = 0;
  last_auto_progress_at = 0;
  archived = false;
}

unfoldable pub insert_new : Db → Project → NewTask → Text → Text → Text → Db × (CreateError ⊎ Text)
unfolding after_insert insert_task new_record
insert_new db p n parent_id role mode =
    after_insert db p n parent_id
      (insert_task db p.repo_root (new_record p n parent_id role mode) n.now)

unfoldable pub decided :
    Db → Project → NewTask → Text → Text → Text → Option CreateError → Db × (CreateError ⊎ Text)
unfolding insert_new
decided db p n parent_id role mode (some err) = (db, inl err)
decided db p n parent_id role mode none = insert_new db p n parent_id role mode

unfoldable pub below :
    Db → Project → NewTask → Text → Text → Option Task → Db × (CreateError ⊎ Text)
unfolding refusal entry_role decided child_mode
below db p n parent_id role entry =
    decided db p n parent_id role (child_mode n.root_mode entry) (refusal (entry_role entry) role)

-- The tables, and the id of the new task unless there is an error.
unfoldable pub create_task_with_role : Db → Project → NewTask → Db × (CreateError ⊎ Text)
unfolding normalize_task_role insert_new below find_task_entry_in_project
create_task_with_role db p n =
    let role = normalize_task_role n.requested_role in
    let parent_id = trim_space n.parent_task_id in
    if is_empty role
    then (db, inl invalid_task_role)
    else if is_empty parent_id
    then insert_new db p n [] role n.root_mode
    else below db p n parent_id role (find_task_entry_in_project db p parent_id)
