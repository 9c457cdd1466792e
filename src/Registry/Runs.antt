-- ===== src/Registry/Runs.antt =====
-- The registry over any sequence of events.
use shellman.Base.{ℕ, List, [], ◌∷◌, Text}
use shellman.Registry.{
  RegistryActor, get_or_create_conn, get_or_create_pane, subscribe, on_pane_closed,
  on_pane_status_update, PaneStatusUpdate,
}
use shellman.Registry.Watching.{Inv, get_or_create_conn-Inv, subscribe-Inv, get_or_create_pane-Inv}
use shellman.Registry.Closing.{on_pane_closed-Inv, on_pane_status_update-Inv}

-- What the clients and tmux make the registry do.
pub data Event : Type 0 where
  connects : Text → Event
  subscribes : Text → Text → Event
  finds : Text → Event
  closes : Text → Event
  updates : PaneStatusUpdate → Event

unfoldable pub step : RegistryActor → Event → ℕ → RegistryActor
unfolding get_or_create_conn subscribe get_or_create_pane on_pane_closed on_pane_status_update
step r (connects conn_id) now = get_or_create_conn r conn_id
step r (subscribes conn_id target) now = subscribe r conn_id target now
step r (finds target) now = get_or_create_pane r target now
step r (closes target) now = (on_pane_closed r target).0
step r (updates update) now = (on_pane_status_update r update now).0

unfoldable pub run : RegistryActor → List (Event × ℕ) → RegistryActor
unfolding step
run r [] = r
run r ((event, now) ∷ events) = run (step r event now) events

step-Inv : (r : RegistryActor) (event : Event) (now : ℕ) → Inv r → Inv (step r event now)
unfolding step
step-Inv r (connects conn_id) now inv = get_or_create_conn-Inv r conn_id inv
step-Inv r (subscribes conn_id target) now inv = subscribe-Inv r conn_id target now inv
step-Inv r (finds target) now inv = get_or_create_pane-Inv r target now inv
step-Inv r (closes target) now inv = on_pane_closed-Inv r target inv
step-Inv r (updates update) now inv = on_pane_status_update-Inv r update now inv

-- Whatever connects, subscribes, appears, closes and reports its status, in any order and one call
-- after another: in a registry that is configured with tmux and starts with `Inv` (as the empty one
-- does), every connection watches at most five panes, and just those that have it as a subscriber.
pub run-Inv : (r : RegistryActor) (events : List (Event × ℕ)) → Inv r → Inv (run r events)
unfolding run
run-Inv r [] inv = inv
run-Inv r ((event, now) ∷ events) inv = run-Inv (step r event now) events (step-Inv r event now inv)
