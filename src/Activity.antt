-- ===== src/Activity.antt =====
-- What the pane actors remember of the user and of their own output. `Input` is
-- cli/cmd/shellman/input_activity_tracker.go, `Suppression` is
-- cli/cmd/shellman/autoprogress_suppression.go. A time is a number of nanoseconds, 0 for the zero
-- `time.Time`, and `time.Now()` is an argument.
pub mod Input
pub mod Suppression
