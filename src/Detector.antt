-- ===== src/Detector.antt =====
-- cli/internal/progdetector: which coding agent runs in a pane. `Matching` is matcher.go and the
-- helper functions of the detectors, `Registry` registry.go, `Programs` the built-in detectors, and
-- `Resolve` state_machine.go. A text is the list of its code points.
pub mod Matching
pub mod Registry
pub mod Programs
pub mod Resolve
