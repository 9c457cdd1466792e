-- ===== src/Hub.antt =====
-- The hub of cli/cmd/shellman/runtime_control_mode_hub.go: one watcher for each session of tmux, with
-- its subscriptions and the bytes of a pane that do not yet make a rune. A session's client is an
-- input: whether it can be made, and the targets that it gives for a pane before and after a refresh.
use shellman.Base.{
  ℕ, zero, suc, ◌≡◌, ◌≤◌, ◌<◌, Bool, true, false, not, ◌&&◌, ◌||◌, List, [], ◌∷◌, ◌++◌, Option,
  none, some, ltb, leb, ◌==◌, if◌then◌else◌, Text, codes, text_eq, is_empty, trim_space, has_prefix,
  fields, mem, drop, length, filter, Map, insert, delete,
}
use shellman.Stream.Utf8.{Pending, lead}
use shellman.Control.{ControlOutputEvent, parse_control_output_line}
pub mod Topology
pub mod Runes
pub mod Splitting
pub mod Removing

-- What the bytes after the first say of a rune: it is complete, a byte does not fit, or there are too
-- few bytes.
pub data Verdict : Type 0 where
  whole : Verdict
  bad : Verdict
  short : Verdict

unfoldable pub rune_tail : ℕ → ℕ → ℕ → List ℕ → Verdict
rune_tail zero lo hi s = whole
rune_tail (suc n) lo hi [] = short
rune_tail (suc n) lo hi (c ∷ s) =
    let rest = rune_tail n 0x80 0xbf s in if leb lo c && leb c hi then rest else bad

-- How many bytes after the first the loop goes on by: those of the rune, or none for a byte that
-- does not fit; nothing for a rune that is not full.
unfoldable pub size_of : ℕ → Verdict → Option ℕ
size_of need whole = some need
size_of need bad = some 0
size_of need short = none

unfoldable pub rest_size : Option Pending → List ℕ → Option ℕ
unfolding rune_tail size_of
rest_size none s = some 0
rest_size (some p) s = size_of p.need (rune_tail p.need p.lo p.hi s)

-- The loop at a byte, with the number of bytes that still belong to the last rune.
unfoldable pub split_from : ℕ → List ℕ → List ℕ × List ℕ
split_from skip [] = ([], [])
split_from (suc skip) (c ∷ s) = let rest = split_from skip s in (c ∷ rest.0, rest.1)
split_from zero (c ∷ s) = elim (rest_size (lead c) s) [
  | none ↦ ([], c ∷ s)
  | some n ↦ (c ∷ (split_from n s).0, (split_from n s).1)
]

unfoldable pub split_utf8_payload : List ℕ → List ℕ × List ℕ
unfolding split_from
split_utf8_payload payload = split_from 0 payload

pub record ControlModeSubscription : Type 0 where
  pub id : ℕ
  pub target : Text
  pub out : List (List ℕ)

pub record ControlModeSessionWatcher : Type 0 where
  pub next_id : ℕ
  pub subs : List ControlModeSubscription
  pub utf8_pending : Map (List ℕ)

unfoldable pub bytes_or_none : Option (List ℕ) → List ℕ
bytes_or_none none = []
bytes_or_none (some s) = s

unfoldable pub pending_of : Map (List ℕ) → Text → List ℕ
unfolding bytes_or_none
pending_of m target = bytes_or_none (m target)

-- `w.utf8Pending[target] = pending`, or its deletion.
unfoldable pub put_pending : Text → List ℕ → Map (List ℕ) → Map (List ℕ)
unfolding insert delete
put_pending target [] m = delete target m
put_pending target (c ∷ s) m = insert target (c ∷ s) m

-- The new pending bytes, and what is emitted.
unfoldable pub consume_utf8_chunk : Map (List ℕ) → Text → List ℕ → Map (List ℕ) × List ℕ
unfolding pending_of put_pending split_utf8_payload
consume_utf8_chunk m target chunk =
    let r = split_utf8_payload (pending_of m target ++ chunk) in (put_pending target r.1 m, r.0)

abbrev pub subscription_limit : ℕ
subscription_limit = 128

unfoldable pub offer : Text → List ℕ → ControlModeSubscription → ControlModeSubscription
offer target payload sub =
    if text_eq sub.target target && ltb (length sub.out) subscription_limit
    then record sub { out = sub.out ++ payload ∷ [] }
    else sub

unfoldable pub broadcast :
    Text → List ℕ → List ControlModeSubscription → List ControlModeSubscription
unfolding offer
broadcast target payload [] = []
broadcast target payload (sub ∷ subs) = offer target payload sub ∷ broadcast target payload subs

-- From `consumeUTF8Chunk` on.
unfoldable pub on_output : ControlModeSessionWatcher → Text → List ℕ → ControlModeSessionWatcher
unfolding consume_utf8_chunk broadcast
on_output w target chunk =
    let r = consume_utf8_chunk w.utf8_pending target chunk in
    if is_empty r.1
    then record w { utf8_pending = r.0 }
    else record w { utf8_pending = r.0; subs = broadcast target r.1 w.subs }

-- `PaneTarget`, again after a refresh if it gives nothing.
unfoldable pub target_of : (Text → Text) → (Text → Text) → Text → Text
target_of before after pane_id =
    let target = trim_space (before pane_id) in
    if is_empty target then trim_space (after pane_id) else target

unfoldable pub on_event :
    ControlModeSessionWatcher
    → (Text → Text)
    → (Text → Text)
    → Option ControlOutputEvent
    → ControlModeSessionWatcher
unfolding target_of on_output
on_event w before after none = w
on_event w before after (some ev) =
    let target = target_of before after ev.pane_id in
    if is_empty target then w else on_output w target ev.output

-- One line of the session's client, after the topology's signals.
unfoldable pub on_line :
    ControlModeSessionWatcher → (Text → Text) → (Text → Text) → Text → ControlModeSessionWatcher
unfolding on_event parse_control_output_line
on_line w before after line = on_event w before after (parse_control_output_line line)

-- A subscription to a target that has been trimmed, by a watcher.
unfoldable pub add_subscription : ControlModeSessionWatcher → Text → ControlModeSessionWatcher
add_subscription w target =
    let id = suc w.next_id in
    record w { next_id = id; subs = w.subs ++ record { id = id; target = target; out = [] } ∷ [] }

abbrev new_watcher : ControlModeSessionWatcher
new_watcher = record { next_id = 0; subs = []; utf8_pending = λ target. none }

unfoldable pub watcher_or_new :
    Bool → Option ControlModeSessionWatcher → Option ControlModeSessionWatcher
watcher_or_new made (some w) = some w
watcher_or_new made none = if made then some new_watcher else none

unfoldable pub subscribed :
    Map ControlModeSessionWatcher
    → Text
    → Text
    → Option ControlModeSessionWatcher
    → Map ControlModeSessionWatcher × Option ℕ
unfolding add_subscription insert
subscribed sessions session target none = (sessions, none)
subscribed sessions session target (some w) =
    (insert session (add_subscription w target) sessions, some (suc w.next_id))

-- `Subscribe`, with the session that tmux gives for a target, and whether a client can be made: the
-- sessions, and the id of the subscription unless it failed.
unfoldable pub subscribe :
    Map ControlModeSessionWatcher
    → (Text → Option Text)
    → Bool
    → Text
    → Map ControlModeSessionWatcher × Option ℕ
unfolding subscribed watcher_or_new
subscribe sessions resolve made raw =
    let target = trim_space raw in
    if is_empty target then (sessions, none) else elim (resolve target) [
      | none ↦ (sessions, none)
      | some session ↦ subscribed sessions session target (watcher_or_new made (sessions session))
    ]

unfoldable pub without_sub : ℕ → List ControlModeSubscription → List ControlModeSubscription
without_sub id [] = []
without_sub id (sub ∷ subs) =
    let rest = without_sub id subs in if sub.id == id then rest else sub ∷ rest

unfoldable pub keep_watcher :
    Map ControlModeSessionWatcher
    → Text
    → ControlModeSessionWatcher
    → List ControlModeSubscription
    → Map ControlModeSessionWatcher
unfolding insert delete
keep_watcher sessions session w [] = delete session sessions
keep_watcher sessions session w (sub ∷ subs) =
    insert session (record w { subs = sub ∷ subs }) sessions

-- The function that `Subscribe` returns.
unfoldable pub unsubscribe :
    Map ControlModeSessionWatcher → Text → ℕ → Map ControlModeSessionWatcher
unfolding keep_watcher without_sub
unsubscribe sessions session id = elim (sessions session) [
  | none ↦ sessions
  | some w ↦ keep_watcher sessions session w (without_sub id w.subs)
]
