-- ===== src/TaskState/Tree.antt =====
-- The difference of two states of a project's task tree, in
-- cli/cmd/shellman/runtime_task_state_actor.go. A map of rows by id is the list of its rows; the
-- order in which Go iterates it does not matter, since the parts of the difference are sorted by
-- id.
use shellman.Base.{
  bool_eq, is_none, find, sort_by, ℕ, Bool, true, false, not, ◌&&◌, ◌||◌, List, [], ◌∷◌, Option,
  none, some, ltb, ◌==◌, if◌then◌else◌, Text, text_eq, trim_space,
}

-- projectstate.TaskRecordRow.
pub record TaskRecordRow : Type 0 where
  pub task_id : Text
  pub project_id : Text
  pub parent_task_id : Text
  pub title : Text
  pub current_command : Text
  pub active_adapter : Text
  pub status : Text
  pub sidecar_mode : Text
  pub task_role : Text
  pub description : Text
  pub flag : Text
  pub flag_desc : Text
  pub flag_readed : Bool
  pub checked : Bool
  pub archived : Bool
  pub created_at : ℕ
  pub last_modified : ℕ

pub record TaskNode : Type 0 where
  pub task_id : Text
  pub parent_task_id : Text
  pub title : Text
  pub task_role : Text
  pub current_command : Text
  pub description : Text
  pub flag : Text
  pub flag_desc : Text
  pub flag_readed : Bool
  pub checked : Bool
  pub archived : Bool
  pub status : Text
  pub children : List Text
  pub pending_children_count : ℕ
  pub last_modified : ℕ

pub record TaskTreeReparentDelta : Type 0 where
  pub task_id : Text
  pub old_parent_task_id : Text
  pub new_parent_task_id : Text

pub record TaskTreeDelta : Type 0 where
  pub project_id : Text
  pub added : List TaskNode
  pub removed : List Text
  pub updated : List TaskNode
  pub reparented : List TaskTreeReparentDelta

unfoldable pub is_cons : {A : Type 0} → List A → Bool
is_cons [] = false
is_cons (x ∷ xs) = true

unfoldable pub has_changes : TaskTreeDelta → Bool
unfolding is_cons
has_changes d = is_cons d.added || is_cons d.removed || is_cons d.updated || is_cons d.reparented

-- The fields that the code does not name have their zero value.
unfoldable pub task_row_to_task_node : TaskRecordRow → TaskNode
task_row_to_task_node row = record {
  task_id = row.task_id;
  parent_task_id = row.parent_task_id;
  title = row.title;
  task_role = [];
  current_command = row.current_command;
  description = row.description;
  flag = row.flag;
  flag_desc = row.flag_desc;
  flag_readed = false;
  checked = row.checked;
  archived = false;
  status = row.status;
  children = [];
  pending_children_count = 0;
  last_modified = row.last_modified;
}

-- `out[row.TaskID] = row`.
unfoldable pub put_row : TaskRecordRow → List TaskRecordRow → List TaskRecordRow
put_row row [] = row ∷ []
put_row row (x ∷ xs) =
    let rest = put_row row xs in if text_eq x.task_id row.task_id then row ∷ xs else x ∷ rest

unfoldable pub put_rows : List TaskRecordRow → List TaskRecordRow → List TaskRecordRow
unfolding put_row
put_rows out [] = out
put_rows out (row ∷ rows) = put_rows (put_row row out) rows

unfoldable pub task_rows_by_id : List TaskRecordRow → List TaskRecordRow
unfolding put_rows
task_rows_by_id rows = put_rows [] rows

unfoldable pub row_of : Text → List TaskRecordRow → Option TaskRecordRow
unfolding find
row_of id rows = find (λ r. text_eq r.task_id id) rows

unfoldable pub differs : Text → Text → Bool
differs a b = not (text_eq (trim_space a) (trim_space b))

unfoldable pub has_task_row_content_changed : TaskRecordRow → TaskRecordRow → Bool
has_task_row_content_changed old_row new_row =
    differs old_row.title new_row.title
    || differs old_row.current_command new_row.current_command
    || differs old_row.status new_row.status
    || differs old_row.description new_row.description
    || differs old_row.flag new_row.flag
    || differs old_row.flag_desc new_row.flag_desc
    || not (bool_eq old_row.checked new_row.checked)
    || not (old_row.last_modified == new_row.last_modified)

-- The body of the loop over the new rows.
unfoldable pub diff_row : Option TaskRecordRow → TaskRecordRow → TaskTreeDelta → TaskTreeDelta
unfolding task_row_to_task_node has_task_row_content_changed
diff_row none row delta = record delta { added = task_row_to_task_node row ∷ delta.added }
diff_row (some prev) row delta = record delta {
  reparented =
      if differs prev.parent_task_id row.parent_task_id
      then record {
        task_id = row.task_id;
        old_parent_task_id = prev.parent_task_id;
        new_parent_task_id = row.parent_task_id;
      }
        ∷ delta.reparented
      else delta.reparented;
  updated =
      if has_task_row_content_changed prev row
      then task_row_to_task_node row ∷ delta.updated
      else delta.updated;
}

unfoldable pub diff_rows : List TaskRecordRow → List TaskRecordRow → TaskTreeDelta → TaskTreeDelta
unfolding diff_row row_of
diff_rows old [] delta = delta
diff_rows old (row ∷ rows) delta = diff_row (row_of row.task_id old) row (diff_rows old rows delta)

-- The loop over the old rows.
unfoldable pub removed_ids : List TaskRecordRow → List TaskRecordRow → List Text
unfolding row_of
removed_ids new [] = []
removed_ids new (row ∷ rows) =
    let rest = removed_ids new rows in
    if is_none (row_of row.task_id new) then row.task_id ∷ rest else rest

-- `<` of Go's strings.
unfoldable pub text_lt : Text → Text → Bool
text_lt [] [] = false
text_lt [] (d ∷ t) = true
text_lt (c ∷ s) [] = false
text_lt (c ∷ s) (d ∷ t) = let rest = text_lt s t in ltb c d || (c == d) && rest

unfoldable pub diff_task_rows : Text → List TaskRecordRow → List TaskRecordRow → TaskTreeDelta
unfolding diff_rows removed_ids text_lt sort_by task_rows_by_id
diff_task_rows project_id old_rows new_rows =
    let new_by_id = task_rows_by_id new_rows in
    let delta = diff_rows old_rows new_by_id (record {
      project_id = project_id;
      added = [];
      removed = [];
      updated = [];
      reparented = [];
    }) in
    record {
      project_id = project_id;
      added = sort_by (λ a b. text_lt a.task_id b.task_id) delta.added;
      removed = sort_by text_lt (removed_ids new_by_id old_rows);
      updated = sort_by (λ a b. text_lt a.task_id b.task_id) delta.updated;
      reparented = sort_by (λ a b. text_lt a.task_id b.task_id) delta.reparented;
    }

pub record TaskRowsCache : Type 0 where
  pub max_last_modified : ℕ
  pub rows_by_task_id : List TaskRecordRow

-- `cached && cache.maxLastModified == maxLastModified`.
unfoldable pub is_cached : Option TaskRowsCache → ℕ → Bool
is_cached none max_last_modified = false
is_cached (some cache) max_last_modified = cache.max_last_modified == max_last_modified

unfoldable pub cached_rows : Option TaskRowsCache → List TaskRecordRow
cached_rows none = []
cached_rows (some cache) = cache.rows_by_task_id

-- The body of the loop of diffProjectsTree over the projects: the difference to send, if there is
-- one, and the new cache. The store's answers are arguments.
unfoldable pub diff_project :
    Text
    → Option TaskRowsCache
    → ℕ
    → List TaskRecordRow
    → Option TaskTreeDelta × Option TaskRowsCache
unfolding is_cached cached_rows diff_task_rows has_changes
diff_project project_id cache max_last_modified rows =
    let delta = diff_task_rows project_id (cached_rows cache) rows in
    if is_cached cache max_last_modified then (none, cache) else (
      if has_changes delta then some delta else none,
      some (record {
        max_last_modified = max_last_modified;
        rows_by_task_id = task_rows_by_id rows;
      }),
    )
