-- ===== src/Session/Debounce.antt =====
-- advancePaneStatus: a status is shown only after it was a candidate for the whole delay.
use shellman.Base.{ℕ, ◌+◌, ◌≤◌, ◌<◌, ◌≡◌, ◌≢◌, ◌⊎◌, [], arith, Text}
use shellman.Session.{unset, running, PaneStatusState, Timing, advance_pane_status}

-- A sample with a snapshot changes a status that is shown only if the new one was the candidate
-- before the sample and stayed it for the transition delay, and the clock of the candidate restarts.
pub advance_pane_status_debounced :
    (s : PaneStatusState) (timing : Timing) (curr_hash : Text) (now last_input_at : ℕ)
    → curr_hash ≢ []
    → s.emitted ≢ unset
    → (advance_pane_status s timing curr_hash now last_input_at).emitted ≢ s.emitted
    → let t = advance_pane_status s timing curr_hash now last_input_at in
      (t.emitted ≡ s.candidate)
      × (t.candidate ≡ s.candidate)
      × (t.candidate_since ≡ now)
      × ((timing.transition_delay ≡ 0) ⊎ (s.candidate_since + timing.transition_delay ≤ now))
unfolding advance_pane_status
advance_pane_status_debounced s timing curr_hash now last_input_at h shown changed = ground arith

-- Within the ignore window after the user's input, a pane that does not show `running` does not
-- start to show it, and `running` does not even become the candidate.
pub advance_pane_status_echo :
    (s : PaneStatusState) (timing : Timing) (curr_hash : Text) (now last_input_at : ℕ)
    → curr_hash ≢ []
    → s.emitted ≢ running
    → 0 < last_input_at
    → now < last_input_at + timing.input_ignore_window
    → let t = advance_pane_status s timing curr_hash now last_input_at in
      (t.emitted ≢ running) × (t.candidate ≢ running)
unfolding advance_pane_status
advance_pane_status_echo s timing curr_hash now last_input_at h quiet typed soon = ground arith
