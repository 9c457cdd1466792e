-- ===== src/Pane/Status/Timers.antt =====
-- The evaluation timer after a sample: a status that may still change is looked at again in time.
use shellman.Base.{
  ℕ, ◌+◌, ◌≤◌, ◌<◌, ◌≡◌, ◌≢◌, ◌⊎◌, refl, true, arith, Text, max, subst, ◌↔◌, is_some, Option, none,
  some,
}
use shellman.Session.{
  Timing, PaneStatusState, SessionStatus, unset, running, unknown, status_eq,
  normalize_session_status,
}
use shellman.Pane.Status.{
  PaneStatus, EvalTimer, Reading, clamp_delay, next_status_eval_at, set_timer,
  schedule_status_eval_timer, stop_status_eval_timer, advance, timing_used, arm,
}

-- A status that may change with no new output: `running`, or one with another candidate.
abbrev pub IsOpen : PaneStatusState → Type 0
IsOpen s = (s.emitted ≡ running) ⊎ (s.candidate ≢ s.emitted)

-- The timer of a state that was looked at. It is set if the shown status is neither unset nor
-- `unknown`, and is `running` or not the candidate; it is not set unless the shown status is
-- `running` or not the candidate; and then it is due at most the delay after the later of the
-- sample's and the candidate's time.
pub record Timed (delay : ℕ) (now : ℕ) (s : PaneStatusState) (t : EvalTimer) : Type 0 where
  pub set : s.emitted ≢ unset → s.emitted ≢ unknown → IsOpen s → t.armed ≡ true
  pub needed : t.armed ≡ true → IsOpen s
  pub soon : t.armed ≡ true → t.due_at ≤ max now s.candidate_since + delay

-- The time of the next evaluation, if there is to be one.
record Due (delay : ℕ) (now : ℕ) (s : PaneStatusState) (next : Option ℕ) : Type 0 where
  wanted : s.emitted ≢ unset → s.emitted ≢ unknown → IsOpen s → is_some next ≡ true
  needed : is_some next ≡ true → IsOpen s
  soon : (at : ℕ) → next ≡ some at → (0 < at) × (at ≤ max now s.candidate_since + delay)

status_eq_iff : (s t : SessionStatus) → (status_eq s t ≡ true) ↔ (s ≡ t)
unfolding status_eq
status_eq_iff s t = ground arith

normalize_other : (s : SessionStatus) → s ≢ unset → normalize_session_status s ≡ s
unfolding normalize_session_status
normalize_other s h = ground arith

normalize_unset : (s : SessionStatus) → s ≡ unset → normalize_session_status s ≡ unknown
unfolding normalize_session_status
normalize_unset s h = ground arith

clamp_delay_pos : (delay : ℕ) → 0 < clamp_delay delay
unfolding clamp_delay
clamp_delay_pos delay = ground arith

clamp_delay_idem : (delay : ℕ) → clamp_delay (clamp_delay delay) ≡ clamp_delay delay
unfolding clamp_delay
clamp_delay_idem delay = ground arith

set_timer-due :
    (t : EvalTimer) (at : ℕ)
    → 0 < at
    → let u = set_timer t (some at) in (u.armed ≡ true) × (u.due_at ≤ at)
unfolding set_timer schedule_status_eval_timer
set_timer-due t at h = ground arith

next_status_eval_at-Due :
    (s : PaneStatusState) (now delay : ℕ)
    → 0 < now
    → Due (clamp_delay delay) now s (next_status_eval_at s now delay)
unfolding next_status_eval_at
next_status_eval_at-Due s now delay h = record {
  wanted = ground (
    arith,
    normalize_other s.emitted,
    normalize_unset s.emitted,
    status_eq_iff (normalize_session_status s.emitted) unknown,
    status_eq_iff (normalize_session_status s.emitted) running,
    status_eq_iff s.candidate (normalize_session_status s.emitted),
  );
  needed = ground (
    arith,
    normalize_other s.emitted,
    normalize_unset s.emitted,
    status_eq_iff (normalize_session_status s.emitted) unknown,
    status_eq_iff (normalize_session_status s.emitted) running,
    status_eq_iff s.candidate (normalize_session_status s.emitted),
  );
  soon = λ at e. ground (arith, clamp_delay_pos delay);
}

set_timer-Timed :
    (delay now : ℕ) (s : PaneStatusState) (t : EvalTimer) (next : Option ℕ)
    → Due delay now s next
    → Timed delay now s (set_timer t next)
set_timer-Timed delay now s t none due =
    unfold set_timer stop_status_eval_timer in
    record { set = λ a b o. absurd (cc (due.wanted a b o)); needed = λ e. cc; soon = λ e. cc }
set_timer-Timed delay now s t (some at) due = record {
  set = λ a b o. (set_timer-due t at (due.soon at refl).0).0;
  needed = λ e. due.needed refl;
  soon = λ e. omega (arith, due.soon at refl, set_timer-due t at (due.soon at refl).0);
}

-- Whatever the timer was, after a sample of a pane at a time other than 0: the timer is set if the
-- shown status is neither unset nor `unknown`, and is `running` or not the candidate; it is set only
-- if the shown status is `running` or not the candidate; and a timer that is set is due at most the
-- delay (as clamped) after the later of the sample's and the candidate's time.
pub advance-Timed :
    (timing : Timing) (target : Text) (p : PaneStatus) (r : Reading)
    → 0 < r.now
    → Timed
        (clamp_delay timing.transition_delay)
        r.now
        (advance timing target p r).status_state
        (advance timing target p r).timer
unfolding advance timing_used
advance-Timed timing target p r h =
    let state = (advance timing target p r).status_state in
    let delay = clamp_delay timing.transition_delay in
    set_timer-Timed delay r.now state (arm p r.curr_hash).timer
      (next_status_eval_at state r.now delay)
      (subst (λ w. Due w r.now state (next_status_eval_at state r.now delay))
        (clamp_delay_idem timing.transition_delay) (next_status_eval_at-Due state r.now delay h))
