-- ===== src/Session.antt =====
-- cli/cmd/shellman/session_status.go: the status that a pane shows, debounced over hash samples. A
-- time is a number of nanoseconds with 0 for Go's zero `time.Time`, and a duration is a natural
-- number of them (every caller passes a constant that is not negative). `now.Sub(t)` is compared
-- with a duration by adding the duration to `t`.
use shellman.Base.{
  ℕ, ◌+◌, Bool, true, false, not, ◌&&◌, ◌||◌, List, [], ◌∷◌, ltb, leb, ◌==◌, if◌then◌else◌, Text,
  text_eq, is_empty,
}
pub mod Debounce
pub mod Settling

-- `SessionStatus`: the constants, and `unset` for the empty string, Go's zero value.
pub data SessionStatus : Type 0 where
  unset running ready unknown : SessionStatus

unfoldable pub status_eq : SessionStatus → SessionStatus → Bool
status_eq unset unset = true
status_eq running running = true
status_eq ready ready = true
status_eq unknown unknown = true
status_eq _ _ = false

unfoldable pub normalize_session_status : SessionStatus → SessionStatus
normalize_session_status unset = unknown
normalize_session_status running = running
normalize_session_status ready = ready
normalize_session_status unknown = unknown

unfoldable pub status_from_hashes : Text → Text → SessionStatus
status_from_hashes prev_hash curr_hash =
    if is_empty prev_hash || is_empty curr_hash
    then unknown
    else (if not (text_eq prev_hash curr_hash) then running else ready)

pub record PaneStatusState : Type 0 where
  pub prev_hash : Text
  pub emitted : SessionStatus
  pub candidate : SessionStatus
  pub candidate_since : ℕ
  pub last_active_at : ℕ

-- The two settings of a pane actor.
pub record Timing : Type 0 where
  pub transition_delay : ℕ
  pub input_ignore_window : ℕ

-- `if state.LastActiveAt.IsZero() { state.LastActiveAt = now }`.
active_or : ℕ → ℕ → ℕ
active_or at now = if at == 0 then now else at

-- The branch for a pane with no snapshot.
lose_pane : PaneStatusState → ℕ → PaneStatusState
unfolding active_or
lose_pane state now = record state {
  prev_hash = [];
  emitted = unknown;
  candidate = unknown;
  candidate_since = now;
  last_active_at = active_or state.last_active_at now;
}

-- The last activity after a sample.
touch : PaneStatusState → Text → ℕ → ℕ
unfolding active_or
touch state curr_hash now =
    if is_empty state.prev_hash
    then active_or state.last_active_at now
    else (if not (text_eq state.prev_hash curr_hash)
        then now
        else active_or state.last_active_at now)

-- What the two hashes say; the first sample counts as activity.
observe : PaneStatusState → Text → SessionStatus
unfolding status_from_hashes
observe state curr_hash =
    if is_empty state.prev_hash then running else status_from_hashes state.prev_hash curr_hash

-- Activity right after the user's own input is not reported.
mask_input : PaneStatusState → Timing → ℕ → ℕ → SessionStatus → SessionStatus
unfolding status_eq
mask_input state timing now last_input_at observed =
    if (status_eq observed running
        && not (status_eq state.emitted running)
        && not (last_input_at == 0))
      && ltb now (last_input_at + timing.input_ignore_window)
    then (if status_eq state.emitted unset then ready else state.emitted)
    else observed

-- From `if state.Emitted == ""` to the end: `state` already has its new `LastActiveAt`.
settle : PaneStatusState → Timing → Text → ℕ → SessionStatus → PaneStatusState
unfolding status_eq
settle state timing curr_hash now observed =
    if status_eq state.emitted unset
    then record state {
      emitted = observed;
      candidate = observed;
      candidate_since = now;
      prev_hash = curr_hash;
    }
    else if status_eq observed state.emitted
    then record state { candidate = observed; candidate_since = now; prev_hash = curr_hash }
    else if not (status_eq state.candidate observed)
    then record state { candidate = observed; candidate_since = now; prev_hash = curr_hash }
    else if timing.transition_delay == 0
        || leb (state.candidate_since + timing.transition_delay) now
    then record state {
      emitted = observed;
      candidate = observed;
      candidate_since = now;
      prev_hash = curr_hash;
    }
    else record state { prev_hash = curr_hash }

unfoldable pub advance_pane_status : PaneStatusState → Timing → Text → ℕ → ℕ → PaneStatusState
unfolding lose_pane touch observe mask_input settle
advance_pane_status state timing curr_hash now last_input_at =
    if is_empty curr_hash
    then lose_pane state now
    else settle (record state { last_active_at = touch state curr_hash now }) timing curr_hash now
        (mask_input state timing now last_input_at (observe state curr_hash))

-- One sample of a pane.
pub record Sample : Type 0 where
  pub curr_hash : Text
  pub now : ℕ
  pub last_input_at : ℕ

-- The samples of a pane, one after another.
unfoldable pub run_samples : Timing → PaneStatusState → List Sample → PaneStatusState
run_samples timing state [] = state
run_samples timing state (s ∷ rest) =
    run_samples timing (advance_pane_status state timing s.curr_hash s.now s.last_input_at) rest
