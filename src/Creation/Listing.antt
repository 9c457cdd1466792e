-- ===== src/Creation/Listing.antt =====
-- What createTaskWithRole leaves in the tables: the new task is listed in its project.
use shellman.Base.{
  ℕ, ◌≡◌, ◌⊎◌, inl, inr, refl, subst, Bool, true, false, List, ◌∷◌, Option, none, some, arith,
  Bool-cases, if◌then◌else◌, Text, codes, text_eq, text_eq_iff, text_eq_refl, is_empty, trim_space,
  find,
}
use shellman.Runs.Tables.{Db, Task, create_row, or_default, update_where}
use shellman.AutoComplete.Lookups.{Project, find_task_entry_in_project}
use shellman.AutoComplete.Completing.{upsert_status, set_task_status}
use shellman.Creation.{
  NewTask, CreateError, insert_task, with_tasks, has_task, new_task_row, update_parent, updated,
  after_insert, new_record, insert_new,
}

-- The task is listed in the project, as a child of another with a role.
unfoldable pub IsListed : Db → Project → Text → Text → Text → Type 0
IsListed db p task_id parent_id role =
    (t : Task) × (find_task_entry_in_project db p task_id ≡ some t)
    × (t.task_role ≡ role)
    × (t.parent_task_id ≡ parent_id)

-- A row in front of the table is the one that is found under its id.
front-IsListed :
    (db : Db) (p : Project) (t : Task) (ts : List Task)
    → t.repo_root ≡ p.repo_root
    → t.project_id ≡ p.project_id
    → t.archived ≡ false
    → IsListed (record db { tasks = t ∷ ts }) p t.task_id t.parent_task_id t.task_role
unfolding IsListed find_task_entry_in_project find
front-IsListed db p t ts repo project live = (
  t,
  ground (
    arith,
    (text_eq_iff t.repo_root p.repo_root).1 repo,
    (text_eq_iff t.project_id p.project_id).1 project,
    live,
    text_eq_refl t.task_id,
  ),
  refl,
  refl,
)

-- The row in front stays it when the status of a task changes.
abbrev with_status : Project → Text → ℕ → Task → Task
with_status p status now t = record t {
  project_id = if is_empty p.project_id then t.project_id else p.project_id;
  status = status;
  last_modified = now;
}

either-IsListed :
    (b : Bool) (db : Db) (p : Project) (t u : Task) (ts : List Task)
    → IsListed (record db { tasks = t ∷ ts }) p t.task_id t.parent_task_id t.task_role
    → IsListed (record db { tasks = u ∷ ts }) p t.task_id t.parent_task_id t.task_role
    → IsListed
        (record db { tasks = (if b then u else t) ∷ ts })
        p
        t.task_id
        t.parent_task_id
        t.task_role
either-IsListed true db p t u ts h k = k
either-IsListed false db p t u ts h k = h

either-state :
    (b : Bool) (p : Project) (t : Task) (x y : Db × Option Text)
    → IsListed x.0 p t.task_id t.parent_task_id t.task_role
    → IsListed y.0 p t.task_id t.parent_task_id t.task_role
    → IsListed (if b then x else y).0 p t.task_id t.parent_task_id t.task_role
either-state true p t x y h k = h
either-state false p t x y h k = k

status-IsListed :
    (db : Db) (p : Project) (t : Task) (ts : List Task) (other status : Text) (now : ℕ)
    → t.repo_root ≡ p.repo_root
    → t.project_id ≡ p.project_id
    → t.archived ≡ false
    → IsListed
        (set_task_status (record db { tasks = t ∷ ts }) p other status now)
        p
        t.task_id
        t.parent_task_id
        t.task_role
unfolding set_task_status update_where
status-IsListed db p t ts other status now repo project live =
    let rest = update_where (λ x. text_eq x.task_id other) (with_status p status now) ts in
    either-IsListed (text_eq t.task_id other) db p t (with_status p status now t) rest
      (front-IsListed db p t rest repo project live)
      (front-IsListed db p (with_status p status now t) rest repo (ground (arith, project)) live)

upsert-IsListed :
    (db : Db) (p : Project) (t : Task) (ts : List Task) (other status : Text) (now : ℕ)
    → t.repo_root ≡ p.repo_root
    → t.project_id ≡ p.project_id
    → t.archived ≡ false
    → IsListed
        (upsert_status (record db { tasks = t ∷ ts }) p other status now).0
        p
        t.task_id
        t.parent_task_id
        t.task_role
unfolding upsert_status
upsert-IsListed db p t ts other status now repo project live =
    let same = front-IsListed db p t ts repo project live in
    either-state (is_empty other) p t _ _ same (
      either-state (is_empty p.project_id) p t _ _ same
        (status-IsListed db p t ts other status now repo project live))

update_parent-IsListed :
    (db : Db) (p : Project) (t : Task) (ts : List Task) (other : Text) (now : ℕ)
    (parent : Option Task)
    → t.repo_root ≡ p.repo_root
    → t.project_id ≡ p.project_id
    → t.archived ≡ false
    → IsListed
        (update_parent (record db { tasks = t ∷ ts }) p other now parent).0
        p
        t.task_id
        t.parent_task_id
        t.task_role
unfolding update_parent
update_parent-IsListed db p t ts other now none repo project live =
    front-IsListed db p t ts repo project live
update_parent-IsListed db p t ts other now (some parent) repo project live =
    elim (Bool-cases (text_eq parent.status (codes "waiting_children"))) [
      | inl e ↦ rw e (front-IsListed db p t ts repo project live)
      | inr e ↦
          rw e (upsert-IsListed db p t ts other (codes "waiting_children") now repo project live)
    ]

-- What creating has come to: the task is listed, unless there is an error.
unfoldable pub IsCreated : Project → Text → Text → Text → Db × (CreateError ⊎ Text) → Type 0
IsCreated p task_id parent_id role (db, inl err) = Unit
IsCreated p task_id parent_id role (db, inr id) =
    (id ≡ task_id) × IsListed db p task_id parent_id role

updated-IsCreated :
    (p : Project) (task_id parent_id role : Text) (r : Db × Option Text)
    → IsListed r.0 p task_id parent_id role
    → IsCreated p task_id parent_id role (updated task_id r)
unfolding updated IsCreated
updated-IsCreated p task_id parent_id role (db, none) h = (refl, h)
updated-IsCreated p task_id parent_id role (db, some err) h = tt

pub either-IsCreated :
    (b : Bool) (p : Project) (task_id parent_id role : Text) (x y : Db × (CreateError ⊎ Text))
    → IsCreated p task_id parent_id role x
    → IsCreated p task_id parent_id role y
    → IsCreated p task_id parent_id role (if b then x else y)
either-IsCreated true p task_id parent_id role x y h k = h
either-IsCreated false p task_id parent_id role x y h k = k

insert-cases :
    (is_taken : Bool) (db : Db) (t : Task)
    → let o = with_tasks db (create_row is_taken t db.tasks) in
      (o ≡ none) ⊎ (o ≡ some (record db { tasks = t ∷ db.tasks }))
unfolding with_tasks create_row
insert-cases true db t = inl refl
insert-cases false db t = inr refl

insert_task-cases :
    (db : Db) (repo_root : Text) (t : Task) (now : ℕ)
    → (insert_task db repo_root t now ≡ none)
      ⊎ (insert_task db repo_root t now
          ≡ some (record db { tasks = new_task_row repo_root t now ∷ db.tasks }))
unfolding insert_task
insert_task-cases db repo_root t now =
    insert-cases (has_task db t.task_id) db (new_task_row repo_root t now)

module _ (db : Db) (p : Project) (n : NewTask) (parent_id role mode : Text)
    (same : or_default (trim_space role) (codes "full") ≡ role) where
  abbrev row : Task
  row = new_task_row p.repo_root (new_record p n parent_id role mode) n.now

  row_role : row.task_role ≡ role
  unfolding new_task_row new_record
  row_role = same

  after_insert-IsCreated :
      IsCreated p n.task_id parent_id role
        (after_insert db p n parent_id (some (record db { tasks = row ∷ db.tasks })))
  unfolding after_insert new_task_row new_record
  after_insert-IsCreated =
      let after = record db { tasks = row ∷ db.tasks } in
      subst (λ k. IsCreated p n.task_id parent_id k (after_insert db p n parent_id (some after)))
        row_role
        (either-IsCreated (is_empty parent_id) p n.task_id parent_id row.task_role _ _
          (unfold IsCreated in (refl, front-IsListed db p row db.tasks refl refl refl))
          (updated-IsCreated p n.task_id parent_id row.task_role _ (
            update_parent-IsListed db p row db.tasks parent_id n.now
              (find_task_entry_in_project after p parent_id) refl refl refl)))

  pub insert_new-IsCreated :
      IsCreated p n.task_id parent_id role (insert_new db p n parent_id role mode)
  unfolding insert_new
  insert_new-IsCreated =
      elim (insert_task-cases db p.repo_root (new_record p n parent_id role mode) n.now) [
        | inl e ↦ rw e (unfold after_insert IsCreated in tt)
        | inr e ↦ rw e after_insert-IsCreated
      ]
