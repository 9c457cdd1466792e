-- ===== src/Examples/Panes.antt =====
-- Examples of cli/cmd/shellman/runtime_conn_actor.go and autoprogress_suppression.go.
use shellman.Base.{
  ◌≤◌, ◌≡◌, refl, true, false, List, [], ◌∷◌, Option, none, arith, Text, codes, trim_space, mem,
}
use shellman.Conn.{Message, ConnActor, enqueue, select_and_watch, drop_watch}
use shellman.Conn.Watch.{Inv, Watched, select_and_watch-Watched}
use shellman.Conn.Closing.{Dropped, drop_watch-Dropped}
use shellman.Conn.Outbound.{Enqueued, IsAppendOutput, enqueue-Enqueued}
use shellman.Activity.Suppression.{
  Store, Call, registers, consumes, consume_auto_progress_suppression,
  register_auto_progress_suppression,
}
use shellman.Activity.Suppression.Once.{
  register_consume_once, consumed, registered, consumed-le-registered,
}

abbrev first_pane : Text
first_pane = codes "e2e:0.0"

abbrev second_pane : Text
second_pane = codes "e2e:0.1"

-- A connection that watches one pane.
abbrev watching : ConnActor
watching = record {
  id = codes "c1";
  selected = first_pane;
  watch_order = first_pane ∷ [];
  watch_set = λ t. mem t (first_pane ∷ []);
  outbound = [];
}

trimmed_first : trim_space first_pane ≡ first_pane
unfolding trim_space
trimmed_first = refl

trimmed_second : trim_space second_pane ≡ second_pane
unfolding trim_space
trimmed_second = refl

watching-Inv : Inv watching
unfolding mem
watching-Inv = record {
  same = λ t. refl;
  distinct = (refl, tt);
  trimmed = ((trimmed_first, λ e. cc), tt);
}

select_and_watch-Watched_example :
    Watched watching (trim_space second_pane) 1 (select_and_watch watching second_pane 1)
select_and_watch-Watched_example =
    select_and_watch-Watched watching second_pane 1 watching-Inv (omega arith)
      (rw trimmed_second (λ e. cc))

drop_watch-Dropped_example :
    Dropped watching (trim_space first_pane) (drop_watch watching first_pane)
drop_watch-Dropped_example =
    drop_watch-Dropped watching first_pane watching-Inv (rw trimmed_first (λ e. cc))

abbrev resize : Message
resize = record { id = codes "m1"; kind = codes "event"; op = codes "term.output"; payload = [] }

abbrev no_mode : Text → Option Text
no_mode _ = none

enqueue-Enqueued_example :
    Enqueued
      (IsAppendOutput no_mode resize)
      []
      resize
      ((enqueue no_mode watching resize).0.outbound, (enqueue no_mode watching resize).1)
    × ((enqueue no_mode watching resize).0
        ≡ record watching { outbound = (enqueue no_mode watching resize).0.outbound })
enqueue-Enqueued_example = enqueue-Enqueued no_mode watching resize (omega arith)

abbrev hash : Text
hash = codes "a1"

trimmed_hash : trim_space hash ≡ hash
unfolding trim_space
trimmed_hash = refl

abbrev store : Store
store = record { ttl = 5; entries = λ _. none }

register_consume_once_example :
    ((consume_auto_progress_suppression
        (register_auto_progress_suppression store first_pane hash true 100)
        first_pane
        hash
        104).1
      ≡ true)
    × ((consume_auto_progress_suppression
          (consume_auto_progress_suppression
            (register_auto_progress_suppression store first_pane hash true 100)
            first_pane
            hash
            104).0
          first_pane
          hash
          104).1
        ≡ false)
register_consume_once_example =
    register_consume_once store first_pane hash first_pane hash 100 104 104
      (rw trimmed_first (λ e. cc)) (rw trimmed_hash (λ e. cc)) refl refl (omega arith)

abbrev history : List Call
history =
    registers first_pane hash true 100
    ∷ consumes first_pane hash 104
    ∷ consumes first_pane hash 104
    ∷ []

consumed-le-registered_example : consumed first_pane store history ≤ registered first_pane history
consumed-le-registered_example = consumed-le-registered first_pane store history refl
