-- ===== src/Pane.antt =====
-- cli/cmd/shellman/runtime_pane_actor.go: the actor of one pane. Each child models one side of it:
-- what it knows of the terminal (Snapshot, Capture), what it sends to its subscribers (Delivery),
-- and what it tells of the status (Status).
pub mod Snapshot
pub mod Capture
pub mod Delivery
pub mod Status
pub mod Report
