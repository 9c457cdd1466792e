-- ===== src/Pane/Status.antt =====
-- emitStatusWithHash, the evaluation timer and the baseline of a pane actor: the status that is
-- shown, when it is looked at again, and when a run is completed by itself. A time is in
-- nanoseconds, with 0 for the zero time; the clock and tmux's time of the last activity are inputs.
use shellman.Base.{
  ℕ, ◌+◌, ◌*◌, ◌%◌, ◌^◌, Bool, true, false, not, ◌&&◌, ◌||◌, Option, none, some, ltb, ◌==◌, is_some,
  if◌then◌else◌, Text, text_eq, is_empty, trim_space, [],
}
use shellman.Session.{
  SessionStatus, unset, running, ready, unknown, status_eq, normalize_session_status,
  PaneStatusState, Timing, advance_pane_status,
}
use shellman.Activity.Suppression.{Store, consume_auto_progress_suppression}
pub mod Arming
pub mod Timers

abbrev pub tool_hash_transition_fast : ℕ
tool_hash_transition_fast = 1_200_000_000

-- The evaluation timer: whether there is one, when it is due, and the number that tells a stale one.
pub record EvalTimer : Type 0 where
  pub armed : Bool
  pub due_at : ℕ
  pub seq : ℕ

pub record PaneStatus : Type 0 where
  pub status_state : PaneStatusState
  pub startup_hash_captured : Bool
  pub startup_hash : Text
  pub auto_process_armed : Bool
  pub last_current_command : Text
  pub timer : EvalTimer
  pub status_hook_last_at : ℕ
  pub seeded_last_active_at : ℕ

-- The fields of a new actor, and `interval`'s place is not needed by the status.
unfoldable pub new_pane_status : PaneStatus
new_pane_status = record {
  status_state = record {
    prev_hash = [];
    emitted = unset;
    candidate = unset;
    candidate_since = 0;
    last_active_at = 0;
  };
  startup_hash_captured = false;
  startup_hash = [];
  auto_process_armed = false;
  last_current_command = [];
  timer = record { armed = false; due_at = 0; seq = 0 };
  status_hook_last_at = 0;
  seeded_last_active_at = 0;
}

-- A row of the stored baseline; the time is in seconds.
pub record PaneRuntimeBaseline : Type 0 where
  pub last_active_at : ℕ
  pub runtime_status : SessionStatus
  pub snapshot_hash : Text

abbrev pub second : ℕ
second = 1_000_000_000

-- The time of the baseline, for an actor that has none.
seed_last_active : PaneStatus → ℕ → PaneStatus
seed_last_active p unix_sec =
    if not (unix_sec == 0) && (p.status_state.last_active_at == 0)
    then record p {
      status_state = record p.status_state { last_active_at = unix_sec * second };
      seeded_last_active_at =
          if p.seeded_last_active_at == 0 then unix_sec * second else p.seeded_last_active_at;
    }
    else p

seed_hash : PaneStatus → Text → PaneStatus
seed_hash p hash =
    if not (is_empty (trim_space hash)) && is_empty p.status_state.prev_hash
    then record p { status_state = record p.status_state { prev_hash = trim_space hash } }
    else p

-- A status that is none of the three constants is not taken over.
seed_status : PaneStatus → SessionStatus → ℕ → PaneStatus
seed_status p status now =
    if not (status_eq status unset) && status_eq p.status_state.emitted unset
    then record p {
      status_state = record p.status_state {
        emitted = status;
        candidate = status;
        candidate_since =
            if not (p.status_state.last_active_at == 0) then p.status_state.last_active_at else now;
      };
    }
    else p

unfoldable pub set_runtime_baseline : PaneStatus → PaneRuntimeBaseline → ℕ → PaneStatus
unfolding seed_last_active seed_hash seed_status
set_runtime_baseline p baseline now =
    seed_status (seed_hash (seed_last_active p baseline.last_active_at) baseline.snapshot_hash)
      baseline.runtime_status now

-- `if transitionDelay <= 0 || transitionDelay > toolHashTransitionFast`.
unfoldable pub clamp_delay : ℕ → ℕ
clamp_delay delay =
    if (delay == 0) || ltb tool_hash_transition_fast delay then tool_hash_transition_fast else delay

unfoldable pub next_status_eval_at : PaneStatusState → ℕ → ℕ → Option ℕ
unfolding clamp_delay
next_status_eval_at state now transition_delay =
    let emitted = normalize_session_status state.emitted in
    let delay = clamp_delay transition_delay in
    if status_eq emitted unknown
    then none
    else if not (status_eq state.candidate emitted)
    then (if state.candidate_since == 0
        then some (now + delay)
        else some (state.candidate_since + delay))
    else if status_eq emitted running
    then some (now + delay)
    else none

-- `statusEvalSeq++` on a uint64.
next_seq : ℕ → ℕ
next_seq seq = (seq + 1) % 2 ^ 64

unfoldable pub stop_status_eval_timer : EvalTimer → EvalTimer
unfolding next_seq
stop_status_eval_timer t = record { armed = false; due_at = 0; seq = next_seq t.seq }

start_timer : EvalTimer → ℕ → EvalTimer
unfolding next_seq
start_timer t at = record { armed = true; due_at = at; seq = next_seq t.seq }

unfoldable pub schedule_status_eval_timer : EvalTimer → ℕ → EvalTimer
unfolding stop_status_eval_timer start_timer
schedule_status_eval_timer t at =
    if at == 0
    then stop_status_eval_timer t
    else if t.armed && not (t.due_at == 0)
    then (if not (ltb at t.due_at) then t else start_timer (stop_status_eval_timer t) at)
    else start_timer t at

-- `if hasNextEval { schedule } else { stop }`.
unfoldable pub set_timer : EvalTimer → Option ℕ → EvalTimer
unfolding schedule_status_eval_timer stop_status_eval_timer
set_timer t none = stop_status_eval_timer t
set_timer t (some at) = schedule_status_eval_timer t at

-- The clock, the last input to the pane, and `PaneLastActiveAt` (nothing on an error).
pub record Reading : Type 0 where
  pub curr_hash : Text
  pub now : ℕ
  pub last_input_at : ℕ
  pub pane_last_active_at : Option ℕ
  pub consumed_at : ℕ

-- What tmux knows of the last activity, not after now.
unfoldable pub from_tmux : PaneStatusState → Option ℕ → ℕ → PaneStatusState
from_tmux prev none now = prev
from_tmux prev (some at) now =
    if at == 0 then prev else (record prev { last_active_at = if ltb now at then now else at })

-- `prev` when advancePaneStatus is called.
unfoldable pub previous : PaneStatus → Reading → PaneStatusState
unfolding from_tmux
previous p r =
    let s = p.status_state in
    let prev =
      if not p.startup_hash_captured && not (s.last_active_at == 0) && not (is_empty s.prev_hash)
      then record s { prev_hash = r.curr_hash }
      else s in
    if is_empty prev.prev_hash && (prev.last_active_at == 0)
    then from_tmux prev r.pane_last_active_at r.now
    else prev

-- The hash of the first sample, and whether another one was seen since.
unfoldable pub arm : PaneStatus → Text → PaneStatus
arm p curr_hash =
    if not p.startup_hash_captured
    then record p { startup_hash_captured = true; startup_hash = curr_hash }
    else if not p.auto_process_armed && not (text_eq curr_hash p.startup_hash)
    then record p { auto_process_armed = true }
    else p

-- `paneStatusUpdate`, without the title, which is made of the target.
pub record PaneStatusUpdate : Type 0 where
  pub target : Text
  pub current_command : Text
  pub status : SessionStatus
  pub at : ℕ
  pub previous : SessionStatus

-- What a call leaves: the actor, the suppressions, the call of the executor with its pane and its
-- time, and what the status hook is told.
pub record Emission : Type 0 where
  pub pane : PaneStatus
  pub suppression : Store
  pub trigger : Option (Text × ℕ)
  pub update : PaneStatusUpdate

unfoldable pub trigger_auto_completion : Text → ℕ → Option (Text × ℕ)
trigger_auto_completion pane_target observed_at =
    if is_empty (trim_space pane_target) then none else some (trim_space pane_target, observed_at)

module _ (timing : Timing) (target : Text) where
  unfoldable pub timing_used : Timing
  unfolding clamp_delay
  timing_used = record timing { transition_delay = clamp_delay timing.transition_delay }

  -- The actor after the part under the mutex.
  unfoldable pub advance : PaneStatus → Reading → PaneStatus
  unfolding previous arm next_status_eval_at set_timer timing_used
  advance p r =
      let next = advance_pane_status (previous p r) timing_used r.curr_hash r.now r.last_input_at in
      let armed = arm p r.curr_hash in
      record armed {
        status_state = next;
        timer = set_timer armed.timer (next_status_eval_at next r.now timing_used.transition_delay);
        status_hook_last_at = r.now;
      }

  -- `autoProcessArmed && prevStatus != ready && nextStatus == ready`.
  unfoldable pub becomes_ready : PaneStatus → PaneStatus → Reading → Bool
  unfolding previous
  becomes_ready p q r =
      q.auto_process_armed
      && not (status_eq (normalize_session_status (previous p r).emitted) ready)
      && status_eq (normalize_session_status q.status_state.emitted) ready

  unfoldable pub emit_status_with_hash : PaneStatus → Store → Reading → Emission
  unfolding advance becomes_ready previous trigger_auto_completion
  emit_status_with_hash p store r =
      let q = advance p r in
      let (consumed, hit) =
        consume_auto_progress_suppression store target r.curr_hash r.consumed_at in
      let at = q.status_state.last_active_at in
      record {
        pane = q;
        suppression = if becomes_ready p q r then consumed else store;
        trigger =
            if becomes_ready p q r && not hit then trigger_auto_completion target at else none;
        update = record {
          target = target;
          current_command = q.last_current_command;
          status = normalize_session_status q.status_state.emitted;
          at = if at == 0 then r.now else at;
          previous = normalize_session_status (previous p r).emitted;
        };
      }

-- The first part of onStatusEvalTimerFired, under the mutex: whether the status is looked at now.
module _ (timing : Timing) where
  unfoldable pub on_status_eval_timer_fired : PaneStatus → ℕ → ℕ → PaneStatus × Bool
  unfolding schedule_status_eval_timer clamp_delay
  on_status_eval_timer_fired p seq now =
      let fired = record p.timer { armed = false; due_at = 0 } in
      let next_eval_at = p.status_state.last_active_at + clamp_delay timing.transition_delay in
      if not (seq == p.timer.seq)
      then (p, false)
      else if (status_eq (normalize_session_status p.status_state.emitted) running
            && not (p.status_state.last_active_at == 0))
          && ltb now next_eval_at
      then (record p { timer = schedule_status_eval_timer fired next_eval_at }, false)
      else (record p { timer = fired }, true)
