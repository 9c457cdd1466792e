-- ===== src/Conn.antt =====
-- cli/cmd/shellman/runtime_conn_actor.go: one client connection: the pane that it selected, the
-- panes that it watches (oldest first, a few at most), and its bounded outbound queue. Targets and
-- the actor's id are texts; a limit that is not positive is 0 here.
use shellman.Base.{
  ℕ, Bool, true, false, not, List, [], ◌∷◌, ◌++◌, Option, none, some, ltb, ◌==◌, if◌then◌else◌,
  Text, codes, text_eq, is_empty, trim_space, length,
}
pub mod Watch
pub mod Closing
pub mod Outbound

-- `protocol.Message`, with the raw JSON of its payload.
pub record Message : Type 0 where
  pub id : Text
  pub kind : Text
  pub op : Text
  pub payload : Text

-- `watchSet` is the set of its keys.
pub record ConnActor : Type 0 where
  pub id : Text
  pub selected : Text
  pub watch_order : List Text
  pub watch_set : Text → Bool
  pub outbound : List Message

abbrev pub outbound_cap : ℕ
outbound_cap = 128

unfoldable pub new_conn_actor : Text → ConnActor
new_conn_actor conn_id = record {
  id = trim_space conn_id;
  selected = [];
  watch_order = [];
  watch_set = λ _. false;
  outbound = [];
}

unfoldable pub select : ConnActor → Text → ConnActor
select c target = record c { selected = trim_space target }

unfoldable pub add_key : Text → (Text → Bool) → Text → Bool
add_key t set k = if text_eq t k then true else set k

unfoldable pub delete_key : Text → (Text → Bool) → Text → Bool
delete_key t set k = if text_eq t k then false else set k

-- The loop that takes the first occurrence of `target` out of `watchOrder`.
unfoldable pub remove_first : Text → List Text → List Text
remove_first target [] = []
remove_first target (item ∷ rest) =
    let others = remove_first target rest in if text_eq item target then rest else item ∷ others

-- The loop that drops the oldest entries: the order and the set that are left, and `evicted`.
unfoldable pub drop_oldest : ℕ → List Text → (Text → Bool) → Text → List Text × (Text → Bool) × Text
unfolding delete_key
drop_oldest limit [] set evicted = ([], set, evicted)
drop_oldest limit (dropped ∷ rest) set evicted =
    let fewer =
      drop_oldest limit rest (delete_key dropped set)
        (if is_empty evicted then dropped else evicted) in
    if ltb limit (length (dropped ∷ rest)) then fewer else (dropped ∷ rest, set, evicted)

with_watch : ConnActor → Text → List Text × (Text → Bool) × Text → ConnActor × Text
with_watch c target (order, set, evicted) =
    (record c { selected = target; watch_order = order; watch_set = set }, evicted)

unfoldable pub watch_trimmed : ConnActor → Text → ℕ → ConnActor × Text
unfolding remove_first add_key with_watch
watch_trimmed c target limit =
    let order = if c.watch_set target then remove_first target c.watch_order else c.watch_order in
    with_watch c target (drop_oldest limit (order ++ target ∷ []) (add_key target c.watch_set) [])

unfoldable pub select_and_watch : ConnActor → Text → ℕ → ConnActor × Text
unfolding watch_trimmed
select_and_watch c target limit =
    if is_empty (trim_space target)
    then (c, [])
    else watch_trimmed c (trim_space target) (if limit == 0 then 1 else limit)

unfoldable pub watched_targets : ConnActor → List Text
watched_targets c = c.watch_order

-- The entries of `watchOrder` that are not `target`.
unfoldable pub without : Text → List Text → List Text
without target [] = []
without target (item ∷ rest) =
    let others = without target rest in
    if text_eq (trim_space item) target then others else item ∷ others

-- `c.watchOrder[n-1]`, or the empty text.
unfoldable pub last_or_empty : List Text → Text
last_or_empty [] = []
last_or_empty (x ∷ []) = x
last_or_empty (x ∷ y ∷ rest) = last_or_empty (y ∷ rest)

unfoldable pub drop_trimmed : ConnActor → Text → ConnActor
unfolding delete_key without last_or_empty
drop_trimmed c target = record c {
  watch_set = delete_key target c.watch_set;
  watch_order = without target c.watch_order;
  selected =
      if text_eq (trim_space c.selected) target
      then last_or_empty (without target c.watch_order)
      else c.selected;
}

unfoldable pub drop_watch : ConnActor → Text → ConnActor
unfolding drop_trimmed
drop_watch c target = if is_empty (trim_space target) then c else drop_trimmed c (trim_space target)

-- `isAppendTermOutput`: `mode_of` reads the field `mode` of a JSON object and fails on what does
-- not decode; it stands for package encoding/json.
unfoldable pub is_append_term_output : (Text → Option Text) → Message → Bool
is_append_term_output mode_of msg =
    if not (text_eq msg.op (codes "term.output"))
    then false
    else elim (mode_of msg.payload) [ none ↦ false | some mode ↦ text_eq mode (codes "append") ]

-- A send that does not block.
unfoldable pub try_send : List Message → Message → Option (List Message)
try_send queue msg = if ltb (length queue) outbound_cap then some (queue ++ msg ∷ []) else none

-- A receive that does not block.
unfoldable pub discard_oldest : List Message → List Message
discard_oldest [] = []
discard_oldest (_ ∷ rest) = rest

enqueue_full : (Text → Option Text) → List Message → Message → List Message × Bool
unfolding is_append_term_output try_send discard_oldest
enqueue_full mode_of queue msg =
    if is_append_term_output mode_of msg
    then (queue, false)
    else elim (try_send (discard_oldest queue) msg) [
      | none ↦ (discard_oldest queue, false)
      | some sent ↦ (sent, true)
    ]

unfoldable pub enqueue_queue : (Text → Option Text) → List Message → Message → List Message × Bool
unfolding enqueue_full try_send
enqueue_queue mode_of queue msg = elim (try_send queue msg) [
  | none ↦ enqueue_full mode_of queue msg
  | some sent ↦ (sent, true)
]

unfoldable pub enqueue : (Text → Option Text) → ConnActor → Message → ConnActor × Bool
unfolding enqueue_queue
enqueue mode_of c msg =
    let (queue, sent) = enqueue_queue mode_of c.outbound msg in
    (record c { outbound = queue }, sent)
