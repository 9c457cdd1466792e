-- ===== src/Stream/Pump.antt =====
-- runStreamPump of cli/cmd/shellman/stream_pump.go, one tick at a time: it follows the active
-- target and sends its terminal to the client, as a reset after a switch and as a delta otherwise.
-- What tmux and the clock answer during a tick, and how many messages the connection takes before a
-- send fails, are the tick's input. A time is in nanoseconds, 0 for the zero `time.Time`.
use shellman.Base.{
  ℕ, suc, ◌+◌, ◌*◌, Bool, true, false, not, ◌&&◌, ◌||◌, List, [], ◌∷◌, Option, none, some, ltb, leb,
  ◌==◌, if◌then◌else◌, Text, codes, text_eq, is_empty, to_lower, contains, take,
}
use shellman.Target.{ActiveTarget, clear_if}
use shellman.Stream.{Delta, decide_delta, TermFrame, chunk_term_data}
pub mod View
pub mod Sync

-- The result of `CaptureHistory` and of `CapturePane`.
pub data Capture : Type 0 where
  captured : List ℕ → Capture
  failed : Text → Capture

pub record TickInput : Type 0 where
  pub history : Capture
  pub pane : Capture
  pub cursor : Option (ℕ × ℕ)
  pub now : ℕ
  pub later : ℕ
  pub accepts : Option ℕ

pub record PumpState : Type 0 where
  pub last_target : Text
  pub last_target_version : ℕ
  pub last_snapshot : List ℕ
  pub last_cursor : Option (ℕ × ℕ)
  pub pending_switch_target : Text
  pub pending_switch_since : ℕ

unfoldable pub initial_state : PumpState
initial_state = record {
  last_target = [];
  last_target_version = 0;
  last_snapshot = [];
  last_cursor = none;
  pending_switch_target = [];
  pending_switch_since = 0;
}

-- The messages of the pump: `term.output` and `pane.ended`. A frame's data is what is given to the
-- JSON encoder; what the encoder makes of it is `coded` of View.Terminal.
pub data Sent : Type 0 where
  output : Text → TermFrame → Option (ℕ × ℕ) → Sent
  ended : Text → Text → Sent

pub record Outcome : Type 0 where
  pub state : PumpState
  pub active : ActiveTarget
  pub sent : List Sent

unfoldable pub is_pane_target_missing_error : Text → Bool
is_pane_target_missing_error err =
    contains (codes "can't find window") (to_lower err)
    || contains (codes "can't find pane") (to_lower err)

-- Only the last frame has the cursor.
unfoldable pub frame_messages : Text → Option (ℕ × ℕ) → List TermFrame → List Sent
frame_messages target cursor [] = []
frame_messages target cursor (f ∷ []) = output target f cursor ∷ []
frame_messages target cursor (f ∷ g ∷ fs) =
    output target f none ∷ frame_messages target cursor (g ∷ fs)

-- The loop of sendTermFrame returns at the first send that fails.
unfoldable pub deliver : Option ℕ → List Sent → List Sent
deliver none messages = messages
deliver (some n) messages = take n messages

unfoldable pub send_term_frame : Option ℕ → Text → Text → List ℕ → Option (ℕ × ℕ) → List Sent
send_term_frame accepts target mode payload cursor =
    deliver accepts (frame_messages target cursor (chunk_term_data mode payload))

unfoldable pub send_pane_ended_event : Text → Text → List Sent
send_pane_ended_event target reason = if is_empty target then [] else ended target reason ∷ []

newlines : List ℕ → ℕ
newlines [] = 0
newlines (c ∷ s) = if c == 10 then suc (newlines s) else newlines s

unfoldable pub debug_line_count : List ℕ → ℕ
unfolding newlines
debug_line_count text = if is_empty text then 0 else newlines text + 1

-- What a capture comes to: the pane is gone, the tick is given up, or there is a snapshot, with
-- the flag usedHistory.
pub data Captured : Type 0 where
  gone : Text → Captured
  give_up : Captured
  got : Bool → List ℕ → Captured

unfoldable pub of_pane : Capture → Captured
of_pane (failed err) = if is_pane_target_missing_error err then gone err else give_up
of_pane (captured snapshot) = got false snapshot

unfoldable pub of_history : Capture → Capture → Captured
of_history (failed err) pane = if is_pane_target_missing_error err then gone err else of_pane pane
of_history (captured []) pane = of_pane pane
of_history (captured (c ∷ s)) pane = got true (c ∷ s)

-- `sendPaneEndedEvent` and `target.ClearIf`.
unfoldable pub end_pane : PumpState → ActiveTarget → Text → Text → Outcome
end_pane p a current err = record {
  state = p;
  active = clear_if a current;
  sent = send_pane_ended_event current err;
}

-- A short screen right after a switch is given time to settle.
unfoldable pub note_pending : PumpState → Text → ℕ → PumpState
note_pending p current now =
    if not (text_eq p.pending_switch_target current)
    then record p { pending_switch_target = current; pending_switch_since = now }
    else p

unfoldable pub clear_pending : PumpState → PumpState
clear_pending p = record p { pending_switch_target = []; pending_switch_since = 0 }

abbrev pub settle_time : ℕ
settle_time = 350 * 1_000_000

unfoldable pub send_reset : PumpState → ActiveTarget → TickInput → List ℕ → Outcome
send_reset p a input snapshot = record {
  state = record p {
    last_snapshot = snapshot;
    last_target = a.target;
    last_target_version = a.version;
    last_cursor = input.cursor;
  };
  active = a;
  sent = send_term_frame input.accepts a.target (codes "reset") snapshot input.cursor;
}

unfoldable pub switch_to : PumpState → ActiveTarget → TickInput → Captured → Outcome
switch_to p a input (gone err) = end_pane p a a.target err
switch_to p a input give_up = record { state = p; active = a; sent = [] }
switch_to p a input (got used_history snapshot) =
    if not used_history && leb (debug_line_count snapshot) 1
    then (if ltb input.later
          ((note_pending p a.target input.now).pending_switch_since + settle_time)
        then record { state = note_pending p a.target input.now; active = a; sent = [] }
        else send_reset (note_pending p a.target input.now) a input snapshot)
    else send_reset (clear_pending p) a input snapshot

-- `cursorErr == nil && (!hasLastCursor || cursorX != lastCursorX || cursorY != lastCursorY)`.
unfoldable pub cursor_changed : Option (ℕ × ℕ) → Option (ℕ × ℕ) → Bool
cursor_changed none last = false
cursor_changed (some c) none = true
cursor_changed (some (x, y)) (some (u, v)) = not (x == u) || not (y == v)

-- A cursor that could not be read keeps the last one.
unfoldable pub cursor_or : Option (ℕ × ℕ) → Option (ℕ × ℕ) → Option (ℕ × ℕ)
cursor_or none last = last
cursor_or (some c) last = some c

unfoldable pub send_delta : PumpState → ActiveTarget → TickInput → List ℕ → Delta → Outcome
send_delta p a input snapshot delta = record {
  state = record p {
    last_snapshot = snapshot;
    last_target_version = a.version;
    last_cursor = cursor_or input.cursor p.last_cursor;
  };
  active = a;
  sent = send_term_frame input.accepts a.target delta.mode delta.payload input.cursor;
}

unfoldable pub follow : PumpState → ActiveTarget → TickInput → Capture → Outcome
follow p a input (failed err) =
    if is_pane_target_missing_error err
    then end_pane p a a.target err
    else record { state = p; active = a; sent = [] }
follow p a input (captured snapshot) =
    if text_eq snapshot p.last_snapshot && not (cursor_changed input.cursor p.last_cursor)
    then record { state = p; active = a; sent = [] }
    else send_delta p a input snapshot
        (decide_delta p.last_snapshot snapshot (not (text_eq snapshot p.last_snapshot)))

unfoldable pub tick : PumpState → ActiveTarget → TickInput → Outcome
tick p a input =
    if is_empty a.target
    then record { state = p; active = a; sent = [] }
    else if not (text_eq a.target p.last_target) || not (a.version == p.last_target_version)
    then switch_to p a input (of_history input.history input.pane)
    else follow (clear_pending p) a input input.pane
