-- ===== src/Runs/Progress.antt =====
-- TryMarkTaskAutoProgressObserved: an observation of a pane triggers automatic progress once.
use shellman.Base.{
  ℕ, ◌<◌, ◌≡◌, ◌≢◌, refl, Bool, true, ◌&&◌, List, [], ◌∷◌, Option, none, some, arith, ltb,
  if◌then◌else◌, Text, text_eq, text_eq_iff, trim_space,
}
use shellman.Runs.Tables.{
  Task, Db, progress_row, upsert_progress, try_mark_task_auto_progress_observed,
}

-- The mark of a task; a task that has no row was never marked.
unfoldable pub mark_of : Text → List Task → Option ℕ
mark_of task_id [] = none
mark_of task_id (t ∷ ts) =
    let later = mark_of task_id ts in
    if text_eq t.task_id task_id then some t.last_auto_progress_at else later

abbrev pub is_newer : Option ℕ → ℕ → Bool
is_newer none at = true
is_newer (some mark) at = ltb mark at

upsert_progress-mark :
    (ts : List Task) (row : Task) (other : Text)
    → let (after, accepted) = upsert_progress ts row in
      (accepted ≡ is_newer (mark_of row.task_id ts) row.last_auto_progress_at)
      × (mark_of other after ≡ (
          if accepted && text_eq row.task_id other
          then some row.last_auto_progress_at
          else mark_of other ts))
unfolding upsert_progress mark_of
upsert_progress-mark [] row other = (refl, ground arith)
upsert_progress-mark (t ∷ ts) row other = ground (
  arith,
  upsert_progress-mark ts row other,
  text_eq_iff t.task_id row.task_id,
  text_eq_iff t.task_id other,
  text_eq_iff row.task_id other,
)

-- An observation of a task with an id that is not blank, at a time other than 0, is accepted just
-- when the task was never marked, or with an earlier second; then the task has the new mark, and no
-- other task's mark changes. A refused one changes no mark.
pub try_mark_task_auto_progress_observed-mark :
    (db : Db) (repo_root : Text) (task : Task) (observed_at now : ℕ) (other : Text)
    → trim_space task.task_id ≢ []
    → 0 < observed_at
    → let (after, accepted) =
        try_mark_task_auto_progress_observed db repo_root task observed_at now in
      (accepted ≡ is_newer (mark_of (trim_space task.task_id) db.tasks) observed_at)
      × (mark_of other after.tasks ≡ (
          if accepted && text_eq (trim_space task.task_id) other
          then some observed_at
          else mark_of other db.tasks))
unfolding try_mark_task_auto_progress_observed progress_row
try_mark_task_auto_progress_observed-mark db repo_root task observed_at now other h p =
    ground
      (arith, upsert_progress-mark db.tasks (progress_row repo_root task observed_at now) other)
