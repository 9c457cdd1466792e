-- ===== src/Hub/Topology.antt =====
-- The signals of the topology and the end of a session, in
-- cli/cmd/shellman/runtime_control_mode_hub.go: which panes are told as closed.
use shellman.Base.{
  Bool, true, false, not, ◌&&◌, ◌||◌, List, [], ◌∷◌, ◌++◌, Option, none, some, if◌then◌else◌, Text,
  codes, is_empty, trim_space, has_prefix, fields, mem, drop, Map, delete,
}
use shellman.Hub.{ControlModeSubscription, ControlModeSessionWatcher}

unfoldable pub first_field : List Text → Text
first_field [] = []
first_field (f ∷ fs) = trim_space f

unfoldable pub control_signal_operation : Text → Text
unfolding has_prefix first_field fields
control_signal_operation raw =
    let line = trim_space raw in
    if is_empty line || not (has_prefix (codes "%") line)
    then []
    else first_field (fields (drop 1 line))

unfoldable pub is_pane_topology_signal : Text → Bool
unfolding has_prefix control_signal_operation mem
is_pane_topology_signal raw =
    let line = trim_space raw in
    has_prefix (codes "%") line
    && mem (control_signal_operation line) (
        codes "window-add"
        ∷ codes "window-close"
        ∷ codes "unlinked-window-add"
        ∷ codes "unlinked-window-close"
        ∷ codes "layout-change"
        ∷ codes "sessions-changed"
        ∷ codes "session-window-changed"
        ∷ [])

unfoldable pub is_there : Option Text → Bool
is_there none = false
is_there (some _) = true

-- The loop over the panes of before, with the targets that were seen.
unfoldable pub removed_from : List Text → Map Text → List (Text × Text) → List Text
removed_from seen after [] = []
removed_from seen after ((pane_id, raw) ∷ panes) =
    let target = trim_space raw in
    let skipped = removed_from seen after panes in
    let taken = removed_from (target ∷ seen) after panes in
    if is_there (after pane_id) || is_empty target || mem target seen
    then skipped
    else target ∷ taken

unfoldable pub removed_pane_targets : List (Text × Text) → Map Text → List Text
unfolding removed_from
removed_pane_targets before after = removed_from [] after before

unfoldable pub with_reason : Text → List Text → List (Text × Text)
with_reason reason [] = []
with_reason reason (target ∷ targets) = (target, reason) ∷ with_reason reason targets

unfoldable pub reason_of : Text → Text
unfolding control_signal_operation
reason_of line =
    let op = control_signal_operation line in
    if is_empty op then codes "tmux-topology-change" else codes "tmux-" ++ op

-- The closed panes that the hook is told, with the reason; the map after the refresh is `none` if
-- the refresh failed.
unfoldable pub handle_topology_signal :
    List (Text × Text) → Option (Map Text) → Text → List (Text × Text)
unfolding is_pane_topology_signal with_reason reason_of removed_pane_targets
handle_topology_signal before none line = []
handle_topology_signal before (some after) line =
    if is_pane_topology_signal line
    then with_reason (reason_of line) (removed_pane_targets before after)
    else []

-- The targets of the subscriptions, each once.
unfoldable pub closed_targets : List Text → List ControlModeSubscription → List Text
unfolding mem
closed_targets seen [] = []
closed_targets seen (sub ∷ subs) =
    let target = trim_space sub.target in
    let skipped = closed_targets seen subs in
    let taken = closed_targets (target ∷ seen) subs in
    if is_empty target || mem target seen then skipped else target ∷ taken

-- When the loop of a session ends: the sessions (if this watcher is still the session's), and what
-- the hook is told.
unfoldable pub on_session_loop_exit :
    Map ControlModeSessionWatcher
    → Bool
    → Text
    → ControlModeSessionWatcher
    → Map ControlModeSessionWatcher × List (Text × Text)
unfolding delete with_reason closed_targets
on_session_loop_exit sessions is_current session w = (
  (if is_current then delete session sessions else sessions),
  with_reason (codes "control-session-exit") (closed_targets [] w.subs),
)
