-- ===== src/Registry.antt =====
-- cli/cmd/shellman/runtime_registry_actor.go: the connections and the panes of the server, with the
-- shown status of each pane. What a pane does with its subscribers is in Pane; here a pane is the
-- set of the connections that it has as subscribers. Each operation is one step.
use shellman.Base.{
  ℕ, Bool, true, false, not, ◌&&◌, ◌||◌, List, [], ◌∷◌, Option, none, some, ◌==◌, is_none, is_some,
  if◌then◌else◌, Text, text_eq, is_empty, trim_space, has_prefix, codes, mem, Map, insert, delete,
}
use shellman.Conn.{ConnActor, new_conn_actor, select_and_watch, drop_watch, add_key, delete_key}
use shellman.Session.{SessionStatus, unknown, status_eq, normalize_session_status}
pub mod Views
pub mod Creating
pub mod Watching
pub mod Closing
pub mod Runs

pub record SessionStatusItem : Type 0 where
  pub target : Text
  pub title : Text
  pub current_command : Text
  pub status : SessionStatus
  pub updated_at : ℕ

-- `configured` says that ConfigureRuntime has set the tmux service.
pub record RegistryActor : Type 0 where
  pub conns : Map ConnActor
  pub panes : Map (Text → Bool)
  pub pane_items : Map SessionStatusItem
  pub configured : Bool

abbrev pub active_pane_watch_limit : ℕ
active_pane_watch_limit = 5

unfoldable pub new_registry_actor : RegistryActor
new_registry_actor = record {
  conns = λ _. none;
  panes = λ _. none;
  pane_items = λ _. none;
  configured = false;
}

-- The text in front of the first colon, if there is one.
before_colon : Text → Option Text
before_colon [] = none
before_colon (c ∷ s) = elim (before_colon s) [
  | none ↦ if c == 58 then some [] else none
  | some front ↦ if c == 58 then some [] else some (c ∷ front)
]

title_of : Text → Option Text → Text
title_of target none = target
title_of target (some []) = target
title_of target (some (c ∷ front)) = c ∷ front

unfoldable pub session_title_from_target : Text → Text
unfolding before_colon title_of
session_title_from_target target = title_of target (before_colon target)

unfoldable pub or_new : Text → Option ConnActor → ConnActor
or_new conn_id none = new_conn_actor conn_id
or_new conn_id (some c) = c

-- The connection that `GetOrCreateConn` returns, for a trimmed id.
unfoldable pub conn_of : RegistryActor → Text → ConnActor
unfolding or_new
conn_of r conn_id = or_new conn_id (r.conns conn_id)

unfoldable pub get_or_create_conn : RegistryActor → Text → RegistryActor
unfolding conn_of
get_or_create_conn r conn_id =
    let id = trim_space conn_id in
    if is_empty id then r else (record r { conns = insert id (conn_of r id) r.conns })

unfoldable pub seed_pane_status : RegistryActor → Text → ℕ → RegistryActor
unfolding session_title_from_target
seed_pane_status r target now =
    let id = trim_space target in
    if is_empty id || is_some (r.pane_items id) then r else record r {
      pane_items =
          insert id
            (record {
              target = id;
              title = session_title_from_target id;
              current_command = [];
              status = unknown;
              updated_at = now;
            })
            r.pane_items;
    }

-- `getOrCreatePaneLocked`, for a trimmed target.
unfoldable pub create_pane : RegistryActor → Text → ℕ → RegistryActor
unfolding seed_pane_status
create_pane r target now =
    if is_some (r.panes target) || not r.configured
    then r
    else seed_pane_status (record r { panes = insert target (λ _. false) r.panes }) target now

unfoldable pub get_or_create_pane : RegistryActor → Text → ℕ → RegistryActor
unfolding create_pane
get_or_create_pane r target now =
    if is_empty (trim_space target) then r else create_pane r (trim_space target) now

-- A change of the subscribers of a pane, if there is the pane.
unfoldable pub on_subscribers :
    Option (Text → Bool) → ((Text → Bool) → Text → Bool) → Option (Text → Bool)
on_subscribers none f = none
on_subscribers (some subscribers) f = some (f subscribers)

unfoldable pub at_pane :
    Text → ((Text → Bool) → Text → Bool) → Map (Text → Bool) → Map (Text → Bool)
unfolding on_subscribers
at_pane target f panes k = if text_eq target k then on_subscribers (panes k) f else panes k

-- `Subscribe` and `Unsubscribe` of a pane, as far as the set of its subscribers goes.
unfoldable pub subscribe_pane : RegistryActor → Text → Text → RegistryActor
unfolding at_pane
subscribe_pane r target conn_id = record r { panes = at_pane target (add_key conn_id) r.panes }

unfoldable pub unsubscribe_pane : RegistryActor → Text → Text → RegistryActor
unfolding at_pane
unsubscribe_pane r target conn_id = record r { panes = at_pane target (delete_key conn_id) r.panes }

-- From `SelectAndWatch` to the end.
unfoldable pub finish_subscribe : RegistryActor → Text → Text → ConnActor × Text → ℕ → RegistryActor
unfolding get_or_create_pane subscribe_pane unsubscribe_pane
finish_subscribe r conn_id target (conn, evicted) now =
    let watching = record r { conns = insert conn_id conn r.conns } in
    let subscribed = subscribe_pane (get_or_create_pane watching target now) target conn_id in
    if not (is_empty evicted) && not (text_eq evicted target)
    then unsubscribe_pane subscribed evicted conn_id
    else subscribed

-- `Subscribe`. The source takes its mutexes one after another, in SelectAndWatch, GetOrCreatePane,
-- the pane's Subscribe and its Unsubscribe: this is a call that no other overlaps.
unfoldable pub subscribe : RegistryActor → Text → Text → ℕ → RegistryActor
unfolding get_or_create_conn finish_subscribe
subscribe r conn_id target now =
    let id = trim_space conn_id in
    let pane = trim_space target in
    if is_empty id || is_empty pane
    then r
    else let r1 = get_or_create_conn r id in
      finish_subscribe r1 id pane (select_and_watch (conn_of r1 id) pane active_pane_watch_limit)
        now

unfoldable pub drop_from : Text → Option ConnActor → Option ConnActor
drop_from target none = none
drop_from target (some c) = some (drop_watch c target)

-- `onPaneClosed`: the actor, and whether the status of all panes is sent anew. The pane's actor is
-- gone with its subscribers (which Pane.Delivery.notify_ended tells), and each connection drops it.
unfoldable pub on_pane_closed : RegistryActor → Text → RegistryActor × Bool
unfolding drop_from
on_pane_closed r target =
    let id = trim_space target in
    if is_empty id
    then (r, false)
    else let gone = record r { panes = delete id r.panes; pane_items = delete id r.pane_items } in
      if is_none (r.panes id) && is_none (r.pane_items id)
      then (gone, false)
      else (record gone { conns = λ k. drop_from id (r.conns k) }, true)

-- `paneStatusUpdate`.
pub record PaneStatusUpdate : Type 0 where
  pub target : Text
  pub title : Text
  pub current_command : Text
  pub status : SessionStatus
  pub at : ℕ

command_of : Option SessionStatusItem → Text
command_of none = []
command_of (some item) = trim_space item.current_command

-- The item that an update makes, given the one before; the time is in seconds.
unfoldable pub updated_item : Option SessionStatusItem → PaneStatusUpdate → ℕ → SessionStatusItem
unfolding session_title_from_target command_of
updated_item prev update now =
    let target = trim_space update.target in
    record {
      target = target;
      title =
          if is_empty (trim_space update.title)
          then session_title_from_target target
          else trim_space update.title;
      current_command =
          if is_empty (trim_space update.current_command)
          then command_of prev
          else trim_space update.current_command;
      status = normalize_session_status update.status;
      updated_at = if update.at == 0 then now else update.at;
    }

-- `shouldEmit`.
unfoldable pub should_emit : Option SessionStatusItem → SessionStatusItem → Bool
should_emit none item = true
should_emit (some prev) item =
    not (status_eq prev.status item.status)
    || not (text_eq (trim_space prev.title) (trim_space item.title))
    || not (text_eq (trim_space prev.current_command) (trim_space item.current_command))

unfoldable pub on_pane_status_update : RegistryActor → PaneStatusUpdate → ℕ → RegistryActor × Bool
unfolding updated_item should_emit
on_pane_status_update r update now =
    let id = trim_space update.target in
    let item = updated_item (r.pane_items id) update now in
    if is_empty id
    then (r, false)
    else (record r { pane_items = insert id item r.pane_items }, should_emit (r.pane_items id) item)
