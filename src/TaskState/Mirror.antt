-- ===== src/TaskState/Mirror.antt =====
-- A reader that applies each difference keeps a copy of the task tree.
use shellman.Base.{
  [], bool_eq, is_none, is_some, find, ◌≡◌, inl, inr, refl, sym, ◌∙◌, Bool, true, false, ◌&&◌, List,
  Option, none, some, arith, if◌then◌else◌, Text, text_eq, text_eq_iff, trim_space, Bool-cases,
}
use shellman.Base.{Map}
use shellman.TaskState.Tree.{
  TaskRecordRow, TaskNode, TaskTreeReparentDelta, TaskTreeDelta, task_row_to_task_node,
  task_rows_by_id, row_of, differs, has_task_row_content_changed, diff_rows, removed_ids,
  diff_task_rows,
}
use shellman.TaskState.Delta.{
  added_node, updated_node, reparented_node, row_node, nothing, Says, diff_rows-Says, find-sorted,
  removed_ids-found, task_rows_by_id-HasDistinctIds,
}

unfoldable pub reparent : Option TaskTreeReparentDelta → Option TaskNode → Option TaskNode
reparent (some d) (some n) = some (record n { parent_task_id = d.new_parent_task_id })
reparent _ known = known

unfoldable pub or_node : Option TaskNode → Option TaskNode → Option TaskNode
or_node (some n) m = some n
or_node none m = m

-- The reader removes, adds, replaces and moves the nodes that the difference names.
unfoldable pub apply_delta : TaskTreeDelta → Map TaskNode → Map TaskNode
unfolding find or_node reparent
apply_delta d m id =
    if is_some (find (λ k. text_eq k id) d.removed)
    then none
    else or_node (find (λ n. text_eq n.task_id id) d.added) (
        or_node (find (λ n. text_eq n.task_id id) d.updated)
          (reparent (find (λ n. text_eq n.task_id id) d.reparented) (m id)))

-- What a node has of a row: the compared fields, those that are texts up to the white space around
-- them, and the zero value of every other field.
pub record Alike (n : TaskNode) (r : TaskRecordRow) : Type 0 where
  pub parent_task_id : trim_space n.parent_task_id ≡ trim_space r.parent_task_id
  pub title : trim_space n.title ≡ trim_space r.title
  pub current_command : trim_space n.current_command ≡ trim_space r.current_command
  pub status : trim_space n.status ≡ trim_space r.status
  pub description : trim_space n.description ≡ trim_space r.description
  pub flag : trim_space n.flag ≡ trim_space r.flag
  pub flag_desc : trim_space n.flag_desc ≡ trim_space r.flag_desc
  pub checked : n.checked ≡ r.checked
  pub last_modified : n.last_modified ≡ r.last_modified
  pub task_role : n.task_role ≡ []
  pub flag_readed : n.flag_readed ≡ false
  pub archived : n.archived ≡ false
  pub children : n.children ≡ []
  pub pending_children_count : n.pending_children_count ≡ 0

-- The reader has a node just when there is a row, and then they are alike.
unfoldable pub Copies : Option TaskNode → Option TaskRecordRow → Type 0
Copies none none = Unit
Copies (some n) (some r) = Alike n r
Copies _ _ = ⊥

Alike-row : (r : TaskRecordRow) → Alike (task_row_to_task_node r) r
unfolding task_row_to_task_node
Alike-row r = record {
  parent_task_id = refl;
  title = refl;
  current_command = refl;
  status = refl;
  description = refl;
  flag = refl;
  flag_desc = refl;
  checked = refl;
  last_modified = refl;
  task_role = refl;
  flag_readed = refl;
  archived = refl;
  children = refl;
  pending_children_count = refl;
}

not_differs : (a b : Text) → differs a b ≡ false → trim_space a ≡ trim_space b
unfolding differs
not_differs a b h = ground (arith, text_eq_iff (trim_space a) (trim_space b))

pub record Unchanged (a b : TaskRecordRow) : Type 0 where
  pub title : differs a.title b.title ≡ false
  pub current_command : differs a.current_command b.current_command ≡ false
  pub status : differs a.status b.status ≡ false
  pub description : differs a.description b.description ≡ false
  pub flag : differs a.flag b.flag ≡ false
  pub flag_desc : differs a.flag_desc b.flag_desc ≡ false
  pub checked : a.checked ≡ b.checked
  pub last_modified : a.last_modified ≡ b.last_modified

bool_eq-eq : (a b : Bool) → bool_eq a b ≡ true → a ≡ b
bool_eq-eq true b h = sym h
bool_eq-eq false true h = cc
bool_eq-eq false false h = refl

unchanged : (a b : TaskRecordRow) → has_task_row_content_changed a b ≡ false → Unchanged a b
unfolding has_task_row_content_changed
unchanged a b h = record {
  title = ground (arith);
  current_command = ground (arith);
  status = ground (arith);
  description = ground (arith);
  flag = ground (arith);
  flag_desc = ground (arith);
  checked = bool_eq-eq a.checked b.checked (ground (arith));
  last_modified = ground (arith);
}

Alike-Unchanged :
    (parent : Text) (n : TaskNode) (prev row : TaskRecordRow)
    → Alike n prev
    → trim_space parent ≡ trim_space row.parent_task_id
    → Unchanged prev row
    → Alike (record n { parent_task_id = parent }) row
Alike-Unchanged parent n prev row c p u = record {
  parent_task_id = p;
  title = c.title ∙ not_differs prev.title row.title u.title;
  current_command =
      c.current_command ∙ not_differs prev.current_command row.current_command u.current_command;
  status = c.status ∙ not_differs prev.status row.status u.status;
  description = c.description ∙ not_differs prev.description row.description u.description;
  flag = c.flag ∙ not_differs prev.flag row.flag u.flag;
  flag_desc = c.flag_desc ∙ not_differs prev.flag_desc row.flag_desc u.flag_desc;
  checked = c.checked ∙ u.checked;
  last_modified = c.last_modified ∙ u.last_modified;
  task_role = c.task_role;
  flag_readed = c.flag_readed;
  archived = c.archived;
  children = c.children;
  pending_children_count = c.pending_children_count;
}

-- A node that copies the old row copies the new one after its part of the difference.
copy_row :
    (known : Option TaskNode) (old new : Option TaskRecordRow)
    → Copies known old
    → Copies
        (if is_some old && is_none new
          then none
          else or_node
              (added_node old new)
              (or_node (updated_node old new) (reparent (reparented_node old new) known)))
        new
unfolding Copies or_node added_node row_node updated_node reparent reparented_node
    task_row_to_task_node
copy_row none none none c = tt
copy_row none none (some row) c = Alike-row row
copy_row (some n) none new c = elim c [ ]
copy_row none (some prev) new c = elim c [ ]
copy_row (some n) (some prev) none c = tt
copy_row (some n) (some prev) (some row) c =
    elim (Bool-cases (has_task_row_content_changed prev row)) [
      | inl y ↦ rw y (Alike-row row)
      | inr u ↦ elim (Bool-cases (differs prev.parent_task_id row.parent_task_id)) [
        | inl y ↦
            rw (u, y) (Alike-Unchanged row.parent_task_id n prev row c refl (unchanged prev row u))
        | inr z ↦
            rw (u, z)
              (Alike-Unchanged n.parent_task_id n prev row c
                (c.parent_task_id ∙ not_differs prev.parent_task_id row.parent_task_id z)
                (unchanged prev row u))
      ]
    ]

pub diff_task_rows-Copies :
    (m : Map TaskNode) (old new_rows : List TaskRecordRow) (project_id id : Text)
    → Copies (m id) (row_of id old)
    → Copies
        (apply_delta (diff_task_rows project_id old new_rows) m id)
        (row_of id (task_rows_by_id new_rows))
unfolding apply_delta diff_task_rows
diff_task_rows-Copies m old new_rows project_id id c =
    let new = task_rows_by_id new_rows in
    let d = diff_rows old new (nothing project_id) in
    let says : Says id d (row_of id old) (row_of id new) =
      diff_rows-Says old new project_id id (task_rows_by_id-HasDistinctIds new_rows) in
    rw
      (
        find-sorted (λ (k : Text). k) id (removed_ids new old),
        removed_ids-found old new id,
        find-sorted (λ (n : TaskNode). n.task_id) id d.added,
        find-sorted (λ (n : TaskNode). n.task_id) id d.updated,
        find-sorted (λ (n : TaskTreeReparentDelta). n.task_id) id d.reparented,
        says.0,
        says.1,
        says.2,
      )
      (copy_row (m id) (row_of id old) (row_of id new) c)
