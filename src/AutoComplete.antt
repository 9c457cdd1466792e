-- ===== src/AutoComplete.antt =====
-- cli/internal/localapi/run_autocomplete.go, with the lookups of routes_runs.go and the completion of a
-- run of task_completion.go: a pane that became idle completes the run or the task that is bound to
-- it.
pub mod Lookups
pub mod Completing
pub mod Handler
pub mod Finishing
pub mod Effects
pub mod Marks
pub mod Projects
pub mod Once
