-- ===== src/Examples/Actors.antt =====
-- Examples of cli/cmd/shellman/runtime_pane_actor.go, runtime_registry_actor.go and status_pump.go.
use shellman.Base.{
  ℕ, ◌*◌, ◌≤◌, ◌≡◌, refl, true, false, not, ◌&&◌, List, [], ◌∷◌, ◌++◌, Option, none, some, is_some,
  arith, Text, codes, trim_space, text_eq, is_empty, length, keep_last,
}
use shellman.Conn.{Message, outbound_cap, is_append_term_output}
use shellman.Session.{Timing, ready, unknown, status_eq}
use shellman.Activity.Suppression.{Store, consume_auto_progress_suppression}
use shellman.Stream.{chunk_term_data}
use shellman.Stream.Pump.{captured}
use shellman.Pane.Snapshot.{
  append_chunks, append_realtime_snapshot, output_of, append_chunks-keep_last,
}
use shellman.Pane.Capture.{
  Answers, cursor_at, reset, Justified, capture_reset_snapshot_consistent,
  capture_reset_snapshot_consistent-Justified,
}
use shellman.Pane.Delivery.{Seat, Delivery, Wire, subscribe, term_output_messages}
use shellman.Pane.Delivery.Seats.{appends_in, others_in, sent_with, waiting_with}
use shellman.Pane.Delivery.Order.{subscribed_seat, subscribe-subscribed_seat}
use shellman.Pane.Status.{new_pane_status, Reading, emit_status_with_hash, advance, clamp_delay}
use shellman.Pane.Status.Arming.{run_readings, has_changed, run_readings-trigger}
use shellman.Pane.Status.Timers.{Timed, advance-Timed}
use shellman.Registry.{SessionStatusItem, RegistryActor}
use shellman.Registry.Views.{has_subscriber, watches}
use shellman.Registry.Watching as G
use shellman.Registry.Runs.{Event, connects, subscribes, closes, run, run-Inv}
use shellman.StatusPump.{split_tmux_status_items}
use shellman.StatusPump.Splitting.{Split, split_tmux_status_items-Split}

append_chunks-keep_last_example :
    append_chunks (9 ∷ []) ((1 ∷ 2 ∷ 3 ∷ []) ∷ (4 ∷ 5 ∷ []) ∷ []) 4
    ≡ keep_last 4 (9 ∷ [] ++ output_of ((1 ∷ 2 ∷ 3 ∷ []) ∷ (4 ∷ 5 ∷ []) ∷ []))
append_chunks-keep_last_example =
    append_chunks-keep_last (9 ∷ []) ((1 ∷ 2 ∷ 3 ∷ []) ∷ (4 ∷ 5 ∷ []) ∷ []) 4 (omega arith)
      (omega arith)

-- The last four of the six bytes.
append_chunks_run :
    append_chunks (9 ∷ []) ((1 ∷ 2 ∷ 3 ∷ []) ∷ (4 ∷ 5 ∷ []) ∷ []) 4 ≡ 2 ∷ 3 ∷ 4 ∷ 5 ∷ []
unfolding append_chunks append_realtime_snapshot
append_chunks_run = refl

abbrev quiet : ℕ → Answers
quiet _ = record { cursor = cursor_at 3 4; check = captured (97 ∷ []) }

capture_reset_snapshot_consistent-Justified_example :
    Justified
      (captured (98 ∷ []))
      quiet
      (capture_reset_snapshot_consistent (captured (98 ∷ [])) quiet)
capture_reset_snapshot_consistent-Justified_example =
    capture_reset_snapshot_consistent-Justified (captured (98 ∷ [])) quiet

-- The screen changed once, and then stood still.
capture_run :
    capture_reset_snapshot_consistent (captured (98 ∷ [])) quiet ≡ reset (97 ∷ []) (some (3, 4))
unfolding capture_reset_snapshot_consistent text_eq
capture_run = refl

abbrev nobody : Delivery
nobody _ = record { subscribed = false; reset_pending = false; pending = []; channel = [] }

abbrev wire : Wire
wire = record {
  id = codes "e";
  frame_json = λ target frame cursor. frame.mode;
  ended_json = λ target reason. reason;
}

-- A payload is its mode.
abbrev mode_of : Text → Option Text
mode_of payload = some payload

abbrev output : Message
output = record {
  id = codes "e";
  kind = codes "event";
  op = codes "term.output";
  payload = codes "append";
}

abbrev pane : Text
pane = codes "e2e:0.0"

abbrev client : Text
client = codes "c1"

trimmed_client : trim_space client ≡ client
unfolding trim_space
trimmed_client = refl

abbrev no_more : ℕ → List Message
no_more _ = []

abbrev seen : Seat
seen =
    subscribed_seat mode_of wire pane [] false (output ∷ []) no_more (reset (97 ∷ []) (some (3, 4)))

seen_room : length seen.channel ≤ outbound_cap
unfolding subscribed_seat term_output_messages appends_in others_in sent_with waiting_with keep_last
    is_append_term_output text_eq chunk_term_data
seen_room = omega arith

subscribe-subscribed_seat_example :
    subscribe mode_of wire pane nobody client false
      (output ∷ [])
      (reset (97 ∷ []) (some (3, 4)))
      no_more
      (trim_space client)
    ≡ seen
subscribe-subscribed_seat_example =
    subscribe-subscribed_seat mode_of wire pane nobody client false (output ∷ [])
      (reset (97 ∷ []) (some (3, 4))) no_more (rw trimmed_client (λ e. cc)) seen_room

abbrev timing : Timing
timing = record { transition_delay = 3_000_000_000; input_ignore_window = 2_000_000_000 }

abbrev store : Store
store = record { ttl = 5; entries = λ _. none }

abbrev reading : Text → ℕ → Reading
reading hash now = record {
  curr_hash = hash;
  now = now;
  last_input_at = 0;
  pane_last_active_at = none;
  consumed_at = now;
}

abbrev history : List Reading
history = reading (codes "a") 1 ∷ reading (codes "b") 2 ∷ reading (codes "b") 3 ∷ []

run_readings-trigger_example :
    let (q, s) = run_readings timing pane new_pane_status store history in
    let last = reading (codes "b") 2_000_000_000 in
    let e = emit_status_with_hash timing pane q s last in
    is_some e.trigger ≡ (
      has_changed (history ++ last ∷ [])
      && not (is_empty (trim_space pane))
      && not (status_eq q.status_state.emitted ready)
      && status_eq e.pane.status_state.emitted ready
      && not (consume_auto_progress_suppression s pane last.curr_hash last.consumed_at).1)
run_readings-trigger_example =
    run_readings-trigger timing pane new_pane_status store history
      (reading (codes "b") 2_000_000_000) (unfold new_pane_status in refl)
      (unfold new_pane_status in refl)

advance-Timed_example :
    Timed
      (clamp_delay timing.transition_delay)
      7
      (advance timing pane new_pane_status (reading (codes "a") 7)).status_state
      (advance timing pane new_pane_status (reading (codes "a") 7)).timer
advance-Timed_example =
    advance-Timed timing pane new_pane_status (reading (codes "a") 7) (omega arith)

abbrev started : RegistryActor
started = record { conns = λ _. none; panes = λ _. none; pane_items = λ _. none; configured = true }

started-Inv : G.Inv started
unfolding has_subscriber watches
started-Inv = record {
  configured = refl;
  conns = λ conn_id c e. cc;
  agree = λ target conn_id. refl;
}

abbrev events : List (Event × ℕ)
events = (connects client, 1) ∷ (subscribes client pane, 2) ∷ (closes pane, 3) ∷ []

run-Inv_example : G.Inv (run started events)
run-Inv_example = run-Inv started events started-Inv

abbrev item : Text → SessionStatusItem
item target = record {
  target = target;
  title = target;
  current_command = [];
  status = unknown;
  updated_at = 1;
}

abbrev three : List SessionStatusItem
three = item (codes "a") ∷ item (codes "b") ∷ item (codes "c") ∷ []

abbrev size : List SessionStatusItem → Option ℕ
size xs = some (10 * length xs)

split_tmux_status_items-Split_example : Split size 25 three (split_tmux_status_items size 25 three)
split_tmux_status_items-Split_example = split_tmux_status_items-Split size 25 three (omega arith)

-- Two items fit in 25 bytes, a third does not.
split_run :
    split_tmux_status_items size 25 three
    ≡ some ((item (codes "a") ∷ item (codes "b") ∷ []) ∷ (item (codes "c") ∷ []) ∷ [])
unfolding split_tmux_status_items
split_run = refl
