-- ===== src/Examples/Reports.antt =====
-- Examples of cli/cmd/shellman/runtime_task_state_actor.go.
use shellman.Base.{
  ℕ, ◌≡◌, refl, true, false, List, [], ◌∷◌, ◌++◌, none, some, arith, Text, codes, trim_space,
}
use shellman.TaskState.{TaskStateActor, PaneStateReport, new_task_state_actor, same_pane_content}
use shellman.TaskState.Intake as I
use shellman.TaskState.Intake.{reported, triggered, last_report, run-delivered}
use shellman.TaskState.Recent.{
  Kept, trim_to_recent_lines, recent_of, recent, trim_newline, split_lines, join_lines,
  trim_to_recent_lines-Kept,
}
use shellman.TaskState.Tree.{is_cached, diff_project, TaskRecordRow}
use shellman.TaskState.Delta.{last_row}
use shellman.TaskState.Mirror.{Copies}
use shellman.TaskState.Rounds.{follow, follow-Copies}

abbrev report : PaneStateReport
report = record {
  pane_id = codes "e2e:0.0";
  pane_target = codes "e2e:0.0";
  current_command = codes "zsh";
  runtime_status = codes "ready";
  snapshot = codes "$";
  snapshot_hash = codes "a1";
  cursor_x = 1;
  cursor_y = 0;
  has_cursor = true;
  updated_at = 4;
}

trimmed_pane : trim_space report.pane_id ≡ report.pane_id
unfolding trim_space
trimmed_pane = refl

abbrev before : List PaneStateReport × TaskStateActor
before = I.run ([], new_task_state_actor) (reported report ∷ triggered ∷ [])

run-delivered_example :
    (x : PaneStateReport) × (last_report
        (trim_space report.pane_id)
        (I.run before (reported report ∷ triggered ∷ [])).0
      ≡ some x)
    × (same_pane_content x report ≡ true)
run-delivered_example =
    run-delivered (reported report ∷ triggered ∷ []) report (rw trimmed_pane (λ e. cc))

abbrev row : Text → Text → TaskRecordRow
row id title = record {
  task_id = id;
  project_id = codes "p";
  parent_task_id = [];
  title = title;
  current_command = [];
  active_adapter = [];
  status = codes "pending";
  sidecar_mode = codes "advisor";
  task_role = codes "executor";
  description = [];
  flag = [];
  flag_desc = [];
  flag_readed = true;
  checked = false;
  archived = false;
  created_at = 3;
  last_modified = 3;
}

abbrev rounds : List (ℕ × List TaskRecordRow)
rounds = (3, row (codes "t1") (codes "a") ∷ row (codes "t2") (codes "b") ∷ []) ∷ []

abbrev listed : List TaskRecordRow
listed = row (codes "t2") (codes "c") ∷ row (codes "t3") (codes "d") ∷ []

newer : is_cached (follow (codes "p") (λ _. none) none rounds).1 4 ≡ false
unfolding follow diff_project is_cached
newer = refl

-- A task that is gone while no other was modified since stays with the reader.
stays_shown :
    (follow (codes "p") (λ _. none) none (rounds ++ (3, []) ∷ [])).0 (codes "t1")
    ≡ (follow (codes "p") (λ _. none) none rounds).0 (codes "t1")
unfolding follow diff_project is_cached
stays_shown = refl

follow-Copies_example :
    Copies
      ((follow (codes "p") (λ _. none) none (rounds ++ (4, listed) ∷ [])).0 (codes "t2"))
      (last_row (codes "t2") listed)
follow-Copies_example = follow-Copies (codes "p") rounds 4 listed (codes "t2") newer

abbrev screen : Text
screen = codes "one\ntwo\nthree\n"

two_lines : trim_to_recent_lines screen 2 ≡ codes "two\nthree\n"
unfolding trim_to_recent_lines recent_of recent trim_newline split_lines join_lines
two_lines = refl

trim_to_recent_lines-Kept_example : Kept screen 1 2 (trim_to_recent_lines screen 2)
trim_to_recent_lines-Kept_example = trim_to_recent_lines-Kept screen 2 (omega arith)
