-- ===== src/Lib.antt =====
-- Shellman runs terminal sessions of tmux for tasks: it watches panes, tells which program runs in
-- each and whether it is busy, streams the selected pane to its clients, and keeps tasks and their
-- runs in a database. This library models the core of its server, written in Go, in cli/.
--
-- Parts, with the Go files that they model:
--
-- - Stream: cli/cmd/shellman/stream_pump.go and cli/internal/streamdiff/diff.go. Stream.Pump.tick
--   is one tick of runStreamPump; Stream.chunk_term_data and decide_delta are chunkTermData and
--   DecideDelta.
-- - Target: cli/cmd/shellman/active_target.go, the pane that the pump follows and the version that
--   tells the pump about a change.
-- - Session: cli/cmd/shellman/session_status.go, the debounced status of a pane.
-- - Activity: cli/cmd/shellman/input_activity_tracker.go and autoprogress_suppression.go.
-- - Conn: cli/cmd/shellman/runtime_conn_actor.go, a client connection with its watched panes and
--   queue.
-- - Control: cli/internal/tmux/control_mode_parser.go.
-- - Detector: cli/internal/progdetector, the registry, the five built-in detectors, and the
--   resolution of the active adapter.
-- - Runs: cli/internal/projectstate/run_store.go and invalidateBindingIfServerChanged of
--   cli/internal/localapi/routes_runs.go, on tables that are lists of rows.
-- - TaskState: cli/cmd/shellman/runtime_task_state_actor.go, the intake of reports, the shortening
--   of snapshots, and the difference of two task trees.
-- - Policy: cli/internal/localapi's pm_tool_profile.go, task_role.go and sidecar_mode.go, and
--   cli/internal/agentloopadapter/policy_resolver.go.
-- - Creation: createTaskWithRole of cli/internal/localapi/routes_tasks.go (it uses Policy) with
--   InsertTask of cli/internal/projectstate/run_store.go, on the tables of Runs.
-- - Pane: cli/cmd/shellman/runtime_pane_actor.go. Pane.Snapshot is the snapshot that grows with the
--   output, Pane.Capture what a new subscriber is shown, Pane.Delivery what the subscribers are
--   sent, Pane.Status the status with its timer (it uses Session and Activity), and Pane.Report
--   what the actor reports (to TaskState).
-- - Registry: cli/cmd/shellman/runtime_registry_actor.go, the connections (Conn) and the panes
--   with their subscribers. StatusPump: cli/cmd/shellman/status_pump.go, the messages with the
--   status of all panes.
-- - AutoComplete: cli/internal/localapi/run_autocomplete.go, completeRunAndEnqueueActions of
--   task_completion.go, and the lookups of routes_runs.go and routes_tasks.go, on the tables of
--   Runs. Here a statement of the database may fail: AutoComplete.Completing.Faults has the errors.
-- - Hub: cli/cmd/shellman/runtime_control_mode_hub.go, the watchers of tmux sessions, which pass
--   the output that Control reads on to the panes.
-- - Baseline: cli/cmd/shellman/runtime_status_baseline.go, from which Pane.Status starts.
-- - Base holds what they share: texts, lists, maps and tests. Examples holds tests, and the
--   conditions of the theorems met by examples.
--
-- A call on an object that a mutex guards is a function on the object's state, and what goroutines
-- do to it is a list of such calls in an order. Registry.subscribe is one such call too, though
-- the source takes several mutexes in it one after another: calls that overlap it are not
-- modelled. The clock, the answers of tmux and the connection's acceptance of messages are inputs;
-- faults of the database, which the code passes on to its callers, are left out but in
-- AutoComplete, and but for the refusal of a primary key that is taken, which is the database's
-- and not the code's. A text is the list of its code points (of its bytes where the code cuts
-- bytes); a time is a number, with 0 for the zero time, and so is a cursor's coordinate. A Go map
-- is a function from texts or, where it is iterated, the list of its entries. A nil receiver is
-- not modelled, since no constructor gives one. Numbers that wrap around do so explicitly.
-- chunk_loop runs on fuel, as much as there are bytes, and each round takes one at least.
--
-- Parameters: the mode of a JSON payload (Conn), the JSON of an event (Runs, AutoComplete), a
-- terminal that is written to, and the JSON coding of what it is sent, which keeps valid UTF-8
-- (Stream.Pump.View; it is not the terminal of the web interface), the bytes that tmux escapes
-- (Control), the JSON of a frame (Pane.Delivery), the hash of a snapshot (Pane.Report), and the
-- length of the JSON of a status message (StatusPump).
--
-- Not modelled: the HTTP routes, the tmux adapter, the opening and migration of the database, the
-- agent loop, the actions that follow the completion of a run, the control client of
-- tmux, start and shutdown, and the web interface.
pub mod Base
pub mod Target
pub mod Session
pub mod Activity
pub mod Conn
pub mod Control
pub mod Stream
pub mod Detector
pub mod Runs
pub mod TaskState
pub mod Policy
pub mod Pane
pub mod Registry
pub mod StatusPump
pub mod AutoComplete
pub mod Hub
pub mod Baseline
pub mod Creation
pub mod Examples
