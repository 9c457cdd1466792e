-- ===== src/Examples.antt =====
-- The components at concrete inputs: tests of the definitions, and the conditions of the theorems
-- met by an example.
mod Actors
mod Completions
mod Hubs
mod Creations
mod Baselines
mod Sessions
mod Panes
mod Streams
mod Lines
mod Tasks
mod Reports
mod Policies
mod Programs
