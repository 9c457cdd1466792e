-- ===== src/Runs.antt =====
-- cli/internal/projectstate/run_store.go: the runs of a task, their bindings to panes, and the
-- marks of automatic progress, as tables of the database. A table is the list of its rows;
-- `time.Now()` is an argument, in seconds; a statement either takes effect or reports the error
-- that the code looks at (a unique key that is taken), and other faults of the database are left to
-- the callers.
pub mod Tables
pub mod Bindings
pub mod Progress
pub mod Lookup
