-- ===== src/Runs/Tables.antt =====
-- The rows, and the statements of run_store.go.
use shellman.Base.{
  is_some, find, ℕ, Bool, true, false, ◌&&◌, ◌||◌, List, [], ◌∷◌, ◌++◌, Option, none, some, ltb,
  ◌==◌, if◌then◌else◌, Text, codes, text_eq, is_empty, trim_space, filter, length,
}

pub record TaskRun : Type 0 where
  pub run_id : Text
  pub task_id : Text
  pub run_status : Text
  pub started_at : ℕ
  pub completed_at : ℕ
  pub updated_at : ℕ
  pub last_error : Text

pub record RunBinding : Type 0 where
  pub run_id : Text
  pub server_instance_id : Text
  pub pane_id : Text
  pub pane_target : Text
  pub binding_status : Text
  pub stale_reason : Text
  pub updated_at : ℕ

-- The columns of `tasks` that the statements here write.
pub record Task : Type 0 where
  pub task_id : Text
  pub repo_root : Text
  pub project_id : Text
  pub parent_task_id : Text
  pub title : Text
  pub active_adapter : Text
  pub status : Text
  pub sidecar_mode : Text
  pub task_role : Text
  pub created_at : ℕ
  pub last_modified : ℕ
  pub last_auto_progress_at : ℕ
  pub archived : Bool

pub record CompletionInbox : Type 0 where
  pub run_id : Text
  pub request_id : Text
  pub summary : Text
  pub source : Text
  pub created_at : ℕ

-- A row of `run_events`, or of `action_outbox` in the status `pending`.
pub record Entry : Type 0 where
  pub run_id : Text
  pub kind : Text
  pub payload : Text
  pub created_at : ℕ

pub record Db : Type 0 where
  pub tasks : List Task
  pub task_runs : List TaskRun
  pub run_bindings : List RunBinding
  pub completion_inbox : List CompletionInbox
  pub run_events : List Entry
  pub action_outbox : List Entry

abbrev pub run_status_running : Text
run_status_running = codes "running"

abbrev pub run_status_needs_rebind : Text
run_status_needs_rebind = codes "needs_rebind"

abbrev pub run_status_completed : Text
run_status_completed = codes "completed"

abbrev pub binding_status_live : Text
binding_status_live = codes "live"

abbrev pub binding_status_stale : Text
binding_status_stale = codes "stale"

-- `if v == "" { v = fallback }`.
unfoldable pub or_default : Text → Text → Text
or_default v fallback = if is_empty v then fallback else v

module _ {A : Type 0} where
  -- `UPDATE … WHERE p`.
  unfoldable pub update_where : (A → Bool) → (A → A) → List A → List A
  update_where p f [] = []
  update_where p f (x ∷ xs) = (if p x then f x else x) ∷ update_where p f xs

unfoldable pub get_run : Db → Text → Option TaskRun
unfolding find
get_run db run_id = find (λ r. text_eq r.run_id run_id) db.task_runs

-- What the database does with an `INSERT`, given whether its primary key (the fields that models.go
-- declares as `primaryKey`) is taken: it refuses the row or adds it.
unfoldable pub create_row {ℓ} : {A : Type ℓ} → Bool → A → List A → Option (List A)
create_row is_taken row rows = if is_taken then none else some (row ∷ rows)

unfoldable pub has_run : Db → Text → Bool
unfolding get_run
has_run db run_id = is_some (get_run db run_id)

-- The row that InsertRun builds.
unfoldable pub new_run_row : TaskRun → ℕ → TaskRun
unfolding or_default
new_run_row run now = record run {
  run_status = or_default run.run_status run_status_running;
  started_at = if run.started_at == 0 then now else run.started_at;
  updated_at = now;
}

-- InsertRun; `none` is the database's refusal of a run id that is taken.
unfoldable pub insert_run : Db → TaskRun → ℕ → Option Db
unfolding create_row has_run new_run_row
insert_run db run now =
    elim (create_row (has_run db run.run_id) (new_run_row run now) db.task_runs) [
      | none ↦ none
      | some rows ↦ some (record db { task_runs = rows })
    ]

unfoldable pub get_binding_by_run_id : Db → Text → Option RunBinding
unfolding find
get_binding_by_run_id db run_id = find (λ b. text_eq b.run_id run_id) db.run_bindings

unfoldable pub get_live_binding_by_run_id : Db → Text → Option RunBinding
unfolding find
get_live_binding_by_run_id db run_id =
    find (λ b. text_eq b.run_id run_id && text_eq b.binding_status binding_status_live)
      db.run_bindings

unfoldable pub upsert_run_binding : Db → RunBinding → ℕ → Db
unfolding or_default
upsert_run_binding db binding now =
    let row = record binding {
      binding_status = or_default binding.binding_status binding_status_live;
      updated_at = now;
    } in
    record db {
      run_bindings = elim (get_binding_by_run_id db binding.run_id) as (λ _. List RunBinding) [
        | none ↦ row ∷ db.run_bindings
        | some _ ↦ update_where (λ b. text_eq b.run_id binding.run_id) (λ _. row) db.run_bindings
      ];
    }

unfoldable pub is_live_of : Text → RunBinding → Bool
is_live_of server b =
    text_eq b.server_instance_id server && text_eq b.binding_status binding_status_live

unfoldable pub is_stale_of : Text → RunBinding → Bool
is_stale_of server b =
    text_eq b.server_instance_id server && text_eq b.binding_status binding_status_stale

-- `run_id IN (…)`.
unfoldable pub any_run : (RunBinding → Bool) → Text → List RunBinding → Bool
any_run p run_id [] = false
any_run p run_id (b ∷ bs) = (p b && text_eq b.run_id run_id) || any_run p run_id bs

unfoldable pub make_stale : Text → ℕ → RunBinding → RunBinding
make_stale reason now b = record b {
  binding_status = binding_status_stale;
  stale_reason = reason;
  updated_at = now;
}

unfoldable pub needs_rebind : ℕ → TaskRun → TaskRun
needs_rebind now r = record r { run_status = run_status_needs_rebind; updated_at = now }

-- MarkBindingsStaleByServer: both statements of the transaction.
unfoldable pub mark_bindings_stale_by_server : Db → Text → Text → ℕ → Db
mark_bindings_stale_by_server db server reason now =
    let bindings = update_where (is_live_of server) (make_stale reason now) db.run_bindings in
    record db {
      run_bindings = bindings;
      task_runs =
          update_where (λ r. any_run (is_stale_of server) r.run_id bindings) (needs_rebind now)
            db.task_runs;
    }

unfoldable pub append_run_event : Db → Text → Text → Text → ℕ → Db
append_run_event db run_id event_type payload now = record db {
  run_events =
      db.run_events
      ++ record { run_id = run_id; kind = event_type; payload = payload; created_at = now } ∷ [];
}

unfoldable pub has_inbox : Db → Text → Text → Bool
unfolding find
has_inbox db run_id request_id =
    is_some
      (find (λ c. text_eq c.run_id run_id && text_eq c.request_id request_id) db.completion_inbox)

-- InsertCompletionInbox; `none` is ErrDuplicateInboxRequest.
unfoldable pub insert_completion_inbox : Db → CompletionInbox → Option Db
unfolding create_row has_inbox
insert_completion_inbox db row =
    elim (create_row (has_inbox db row.run_id row.request_id) row db.completion_inbox) [
      | none ↦ none
      | some rows ↦ some (record db { completion_inbox = rows })
    ]

unfoldable pub mark_run_completed : Db → Text → ℕ → Db
mark_run_completed db run_id now = record db {
  task_runs =
      update_where (λ r. text_eq r.run_id run_id)
        (λ r. record r { run_status = run_status_completed; completed_at = now; updated_at = now })
        db.task_runs;
}

unfoldable pub set_run_status : Db → Text → Text → ℕ → Db
set_run_status db run_id status now = record db {
  task_runs =
      update_where (λ r. text_eq r.run_id run_id)
        (λ r. record r { run_status = status; updated_at = now }) db.task_runs;
}

unfoldable pub enqueue_run_action : Db → Text → Text → Text → ℕ → Db
enqueue_run_action db run_id action_type payload now = record db {
  action_outbox =
      db.action_outbox
      ++ record { run_id = run_id; kind = action_type; payload = payload; created_at = now } ∷ [];
}

unfoldable pub count_outbox_by_run_id : Db → Text → ℕ
count_outbox_by_run_id db run_id = length (filter (λ e. text_eq e.run_id run_id) db.action_outbox)

unfoldable pub count_run_events_by_type : Db → Text → Text → ℕ
count_run_events_by_type db run_id event_type =
    length (filter (λ e. text_eq e.run_id run_id && text_eq e.kind event_type) db.run_events)

-- TryMarkTaskAutoProgressObserved: the row that is inserted for a task that has none, and the flag
-- `RowsAffected > 0`.
unfoldable pub progress_row : Text → Task → ℕ → ℕ → Task
unfolding or_default
progress_row repo_root task observed_at now = record {
  task_id = trim_space task.task_id;
  repo_root = repo_root;
  project_id = trim_space task.project_id;
  parent_task_id = trim_space task.parent_task_id;
  title = trim_space task.title;
  active_adapter = trim_space task.active_adapter;
  status = or_default (trim_space task.status) (codes "pending");
  sidecar_mode = codes "advisor";
  task_role = codes "full";
  created_at = now;
  last_modified = now;
  last_auto_progress_at = observed_at;
  archived = false;
}

-- The upsert: a new row, or the two columns of a row whose mark is older.
unfoldable pub upsert_progress : List Task → Task → List Task × Bool
upsert_progress [] row = (row ∷ [], true)
upsert_progress (t ∷ ts) row =
    let (rest, affected) = upsert_progress ts row in
    if text_eq t.task_id row.task_id
    then (if ltb t.last_auto_progress_at row.last_auto_progress_at
        then (
          record t {
            last_auto_progress_at = row.last_auto_progress_at;
            last_modified = row.last_modified;
          }
              ∷ ts,
          true,
        )
        else (t ∷ ts, false))
    else (t ∷ rest, affected)

unfoldable pub try_mark_task_auto_progress_observed : Db → Text → Task → ℕ → ℕ → Db × Bool
try_mark_task_auto_progress_observed db repo_root task observed_at now =
    if is_empty (trim_space task.task_id) || observed_at == 0
    then (db, false)
    else (let (tasks, affected) =
          upsert_progress db.tasks (progress_row repo_root task observed_at now) in
        (record db { tasks = tasks }, affected))
