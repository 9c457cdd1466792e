-- ===== src/AutoComplete/Lookups.antt =====
-- The lookups of cli/internal/localapi/routes_runs.go: the task that is bound to a pane, and the live
-- run of a task in a pane. The candidates are looked at in the order of the lists.
use shellman.Base.{
  find, sort_by, take, ℕ, Bool, true, false, not, ◌&&◌, ◌||◌, List, [], ◌∷◌, ◌++◌, Option, none,
  some, ltb, ◌==◌, if◌then◌else◌, Text, text_eq, is_empty, trim_space,
}
use shellman.Runs.Tables.{
  Db, Task, TaskRun, RunBinding, get_run, run_status_running, binding_status_live,
}

-- `PaneBinding`, under its task id in the index of a project's panes.
pub record PaneBinding : Type 0 where
  pub task_id : Text
  pub pane_uuid : Text
  pub pane_id : Text
  pub pane_target : Text

-- A project with the panes of its repository, in the order in which they are looked at.
pub record Project : Type 0 where
  pub project_id : Text
  pub repo_root : Text
  pub panes : List PaneBinding

unfoldable pub pane_ref_matches_binding : Text → PaneBinding → Bool
pane_ref_matches_binding pane_hint b =
    let hint = trim_space pane_hint in
    not (is_empty hint)
    && (text_eq hint (trim_space b.pane_target)
        || text_eq hint (trim_space b.pane_id)
        || text_eq hint (trim_space b.pane_uuid))

unfoldable pub find_task_entry_in_project : Db → Project → Text → Option Task
unfolding find
find_task_entry_in_project db p task_id =
    find
      (λ t.
        text_eq t.repo_root p.repo_root
        && text_eq t.project_id p.project_id
        && not t.archived
        && text_eq t.task_id task_id)
      db.tasks

-- `a < b` on strings.
unfoldable pub text_lt : Text → Text → Bool
text_lt s [] = false
text_lt [] (b ∷ t) = true
text_lt (a ∷ s) (b ∷ t) = ltb a b || ((a == b) && text_lt s t)

-- `bestProjectID`, `bestStore` and `bestEntry`.
pub record Found : Type 0 where
  pub project : Project
  pub entry : Task

unfoldable pub better : Option Found → Task → Bool
unfolding text_lt
better none entry = true
better (some best) entry =
    ltb best.entry.last_modified entry.last_modified
    || ((entry.last_modified == best.entry.last_modified)
        && text_lt (trim_space entry.task_id) (trim_space best.entry.task_id))

unfoldable pub consider : Project → Option Found → Option Task → Option Found
unfolding better
consider p best none = best
consider p best (some entry) =
    if better best entry then some (record { project = p; entry = entry }) else best

unfoldable pub scan_panes : Db → Text → Project → Option Found → List PaneBinding → Option Found
unfolding consider pane_ref_matches_binding find_task_entry_in_project
scan_panes db pane_target p best [] = best
scan_panes db pane_target p best (b ∷ bs) =
    let next =
      if pane_ref_matches_binding pane_target b
      then consider p best (find_task_entry_in_project db p b.task_id)
      else best in
    scan_panes db pane_target p next bs

unfoldable pub scan_projects : Db → Text → Option Found → List Project → Option Found
unfolding scan_panes
scan_projects db pane_target best [] = best
scan_projects db pane_target best (p ∷ ps) =
    scan_projects db pane_target (scan_panes db pane_target p best p.panes) ps

unfoldable pub find_task_by_pane_target : Db → List Project → Text → Option Found
unfolding scan_projects
find_task_by_pane_target db projects pane_target = scan_projects db pane_target none projects

-- A row of the join in ListRunCandidatesByPaneTarget.
pub record RunLookupCandidate : Type 0 where
  pub run : TaskRun
  pub binding : RunBinding

with_bindings : Text → TaskRun → List RunBinding → List RunLookupCandidate
with_bindings pane_target r [] = []
with_bindings pane_target r (b ∷ bs) =
    let rest = with_bindings pane_target r bs in
    if text_eq b.run_id r.run_id
      && (text_eq b.pane_target pane_target || text_eq b.pane_id pane_target)
    then record { run = r; binding = b } ∷ rest
    else rest

join_runs : Text → List TaskRun → List RunBinding → List RunLookupCandidate
unfolding with_bindings
join_runs pane_target [] bs = []
join_runs pane_target (r ∷ rs) bs = with_bindings pane_target r bs ++ join_runs pane_target rs bs

-- `ORDER BY tr.updated_at DESC, rb.updated_at DESC`.
later : RunLookupCandidate → RunLookupCandidate → Bool
later a b =
    ltb b.run.updated_at a.run.updated_at
    || ((a.run.updated_at == b.run.updated_at) && ltb b.binding.updated_at a.binding.updated_at)

unfoldable pub list_run_candidates_by_pane_target : Db → Text → ℕ → List RunLookupCandidate
unfolding join_runs later sort_by
list_run_candidates_by_pane_target db pane_target limit =
    let target = trim_space pane_target in
    if is_empty target
    then []
    else take (if limit == 0 then 20 else limit)
        (sort_by later (join_runs target db.task_runs db.run_bindings))

-- A run that was deleted since (`sql.ErrNoRows`) is passed over.
abbrev pub or_run : Option TaskRun → Option TaskRun → Option TaskRun
or_run none rest = rest
or_run (some run) rest = some run

unfoldable pub first_live : Db → Text → List RunLookupCandidate → Option TaskRun
unfolding get_run
first_live db task_id [] = none
first_live db task_id (c ∷ cs) =
    let rest = first_live db task_id cs in
    if text_eq (trim_space c.run.task_id) (trim_space task_id)
      && text_eq c.run.run_status run_status_running
      && text_eq c.binding.binding_status binding_status_live
    then or_run (get_run db c.run.run_id) rest
    else rest

unfoldable pub find_live_running_run_by_pane_target_for_task : Db → Text → Text → Option TaskRun
unfolding first_live list_run_candidates_by_pane_target
find_live_running_run_by_pane_target_for_task db pane_target task_id =
    first_live db task_id (list_run_candidates_by_pane_target db pane_target 8)
