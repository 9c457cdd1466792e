-- ===== src/TaskState/Intake.antt =====
-- No change of a pane is lost between its report and the tick that takes it.
use shellman.Base.{
  bool_eq, is_some, ◌≡◌, ◌≢◌, ◌⊎◌, inl, inr, refl, sym, ap, ◌∙◌, Bool, true, false, ◌||◌, List, [],
  ◌∷◌, ◌++◌, Option, none, some, arith, if◌then◌else◌, Text, text_eq, text_eq_refl, is_empty,
  empty-cases, nil_of_empty, trim_space, Bool-cases,
}
use shellman.Base.{insert, append_assoc, append-nil}
use shellman.TaskState.{
  PaneStateReport, TaskStateActor, new_task_state_actor, same_pane_content, is_unchanged,
  enqueue_report, on_pane_report, swap_dirty_reports, take_reports,
}

-- What reaches the actor: a report, or a round of the run loop.
pub data Event : Type 0 where
  reported : PaneStateReport → Event
  triggered : Event

-- The reports taken so far, in their order, and the actor.
unfoldable pub step :
    List PaneStateReport × TaskStateActor → Event → List PaneStateReport × TaskStateActor
step (taken, a) (reported r) = (taken, on_pane_report a r)
step (taken, a) triggered = let (reports, after) = take_reports a in (taken ++ reports, after)

unfoldable pub run :
    List PaneStateReport × TaskStateActor → List Event → List PaneStateReport × TaskStateActor
unfolding step
run s [] = s
run s (e ∷ es) = run (step s e) es

-- What a reader knows of a pane who reads the reports in their order: the last one.
unfoldable pub last_report : Text → List PaneStateReport → Option PaneStateReport
last_report id [] = none
last_report id (r ∷ rs) = elim (last_report id rs) as (λ _. Option PaneStateReport) [
  | some later ↦ some later
  | none ↦ if text_eq r.pane_id id then some r else none
]

last_report-snoc :
    (id : Text) (rs : List PaneStateReport) (r : PaneStateReport)
    → last_report id (rs ++ r ∷ []) ≡ (if text_eq r.pane_id id then some r else last_report id rs)
unfolding last_report
last_report-snoc id [] r = refl
last_report-snoc id (x ∷ rs) r = ground (arith, last_report-snoc id rs r)

pub record Inv (taken : List PaneStateReport) (a : TaskStateActor) : Type 0 where
  pub known : (id : Text) → last_report id (taken ++ a.report_queue) ≡ a.pane_latest id
  pub dirty : (id : Text) → is_some (a.dirty_pane_ids id) ≡ is_some (last_report id a.report_queue)
  pub trigger : a.report_queue ≡ [] ⊎ a.trigger_queue ≡ true

enqueue_report-Inv :
    (taken : List PaneStateReport) (a : TaskStateActor) (r : PaneStateReport)
    → Inv taken a
    → Inv taken (enqueue_report a r)
unfolding enqueue_report insert
enqueue_report-Inv taken a r inv = record {
  known = λ id. ground (
    arith,
    inv.known id,
    last_report-snoc id (taken ++ a.report_queue) r,
    ap (last_report id) (append_assoc taken a.report_queue (r ∷ [])),
  );
  dirty = λ id. ground (arith, inv.dirty id, last_report-snoc id a.report_queue r);
  trigger = inr refl;
}

on_pane_report-Inv :
    (taken : List PaneStateReport) (a : TaskStateActor) (r : PaneStateReport)
    → Inv taken a
    → Inv taken (on_pane_report a r)
unfolding on_pane_report
on_pane_report-Inv taken a r inv =
    elim (Bool-cases (
      is_empty (trim_space r.pane_id)
      || is_unchanged (a.pane_latest (trim_space r.pane_id))
          (record r { pane_id = trim_space r.pane_id }))) [
            | inl y ↦ rw (on_pane_report, y) inv
            | inr n ↦
                rw (on_pane_report, n)
                  (enqueue_report-Inv taken a (record r { pane_id = trim_space r.pane_id }) inv)
          ]

-- A round of the run loop takes every report.
abbrev Taken : List PaneStateReport → TaskStateActor → TaskStateActor → Type 0
Taken taken a after =
    Inv taken after × (after.report_queue ≡ []) × (after.pane_latest ≡ a.pane_latest)

take_reports-Taken :
    (taken : List PaneStateReport) (a : TaskStateActor)
    → Inv taken a
    → Taken (taken ++ (take_reports a).0) a (take_reports a).1
unfolding take_reports swap_dirty_reports last_report
take_reports-Taken taken a inv = go a.report_queue a.trigger_queue inv
  where
    go :
        (q : List PaneStateReport) (t : Bool)
        → Inv taken (record a { report_queue = q; trigger_queue = t })
        → Taken
            (taken ++ (take_reports (record a { report_queue = q; trigger_queue = t })).0)
            a
            (take_reports (record a { report_queue = q; trigger_queue = t })).1
    go [] true i = (
      record {
        known = λ id. rw (append-nil taken) (i.known id);
        dirty = i.dirty;
        trigger = inl refl;
      },
      refl,
      refl,
    )
    go [] false i = (
      record {
        known = λ id. rw (append-nil taken) (i.known id);
        dirty = i.dirty;
        trigger = inl refl;
      },
      refl,
      refl,
    )
    go (r ∷ q) false i = elim i.trigger [ inl e ↦ cc | inr e ↦ cc ]
    go (r ∷ q) true i = (
      record {
        known = λ id. rw (append-nil (taken ++ r ∷ q)) (i.known id);
        dirty = λ id. refl;
        trigger = inl refl;
      },
      refl,
      refl,
    )

step-Inv :
    (taken : List PaneStateReport) (a : TaskStateActor) (e : Event)
    → Inv taken a
    → let (taken', after) = step (taken, a) e in Inv taken' after
unfolding step
step-Inv taken a (reported r) inv = on_pane_report-Inv taken a r inv
step-Inv taken a triggered inv = (take_reports-Taken taken a inv).0

-- In every state that the actor reaches: who reads the reports taken so far and the queued ones
-- knows the latest report of each pane, exactly the panes with a queued report are dirty, and the
-- trigger is set while a report is queued.
pub run-Inv :
    (taken : List PaneStateReport) (a : TaskStateActor) (es : List Event)
    → Inv taken a
    → let (taken', after) = run (taken, a) es in Inv taken' after
unfolding run
run-Inv taken a [] inv = inv
run-Inv taken a (e ∷ es) inv =
    let s = step (taken, a) e in run-Inv s.0 s.1 es (step-Inv taken a e inv)

pub new_task_state_actor-Inv : Inv [] new_task_state_actor
unfolding new_task_state_actor last_report
new_task_state_actor-Inv = record { known = λ id. refl; dirty = λ id. refl; trigger = inl refl }

bool_eq_refl : (b : Bool) → bool_eq b b ≡ true
bool_eq_refl true = refl
bool_eq_refl false = refl

same_pane_content_refl : (r : PaneStateReport) → same_pane_content r r ≡ true
unfolding same_pane_content
same_pane_content_refl r =
    rw
      (
        text_eq_refl (trim_space r.pane_target),
        text_eq_refl (trim_space r.current_command),
        text_eq_refl (trim_space r.runtime_status),
        text_eq_refl r.snapshot,
        text_eq_refl (trim_space r.snapshot_hash),
        bool_eq_refl r.has_cursor,
      )
      (ground arith)

on_pane_report-latest :
    (a : TaskStateActor) (r : PaneStateReport)
    → trim_space r.pane_id ≢ []
    → (x : PaneStateReport) × ((on_pane_report a r).pane_latest (trim_space r.pane_id) ≡ some x)
      × (same_pane_content x r ≡ true)
unfolding on_pane_report enqueue_report insert is_unchanged same_pane_content
on_pane_report-latest a r h = elim (empty-cases (trim_space r.pane_id)) [
  | inl y ↦ ground (arith, nil_of_empty (trim_space r.pane_id) y, h)
  | inr n ↦ go (a.pane_latest (trim_space r.pane_id)) refl n.0
]
  where
    go :
        (prev : Option PaneStateReport)
        → a.pane_latest (trim_space r.pane_id) ≡ prev
        → is_empty (trim_space r.pane_id) ≡ false
        → (x : PaneStateReport) × ((on_pane_report a r).pane_latest (trim_space r.pane_id) ≡ some x)
          × (same_pane_content x r ≡ true)
    go none e n = (
      record r { pane_id = trim_space r.pane_id },
      rw (on_pane_report, n, e, text_eq_refl (trim_space r.pane_id)) refl,
      same_pane_content_refl r,
    )
    go (some x) e n = elim (Bool-cases (same_pane_content x r)) [
      | inl y ↦ (x, rw (on_pane_report, n, e, y) e, y)
      | inr z ↦ (
        record r { pane_id = trim_space r.pane_id },
        rw (on_pane_report, n, e, z, text_eq_refl (trim_space r.pane_id)) refl,
        same_pane_content_refl r,
      )
    ]

-- Whatever happened before, and whether or not the report is dropped as a repetition: after the
-- next round of the run loop, who reads the taken reports in their order knows, for the pane of the
-- report, a report with the same content.
pub run-delivered :
    (es : List Event) (r : PaneStateReport)
    → trim_space r.pane_id ≢ []
    → let (taken, a) = run ([], new_task_state_actor) es in
      let (taken', a') = run (taken, a) (reported r ∷ triggered ∷ []) in
      (x : PaneStateReport) × (last_report (trim_space r.pane_id) taken' ≡ some x)
      × (same_pane_content x r ≡ true)
unfolding run step
run-delivered es r h =
    let s = run ([], new_task_state_actor) es in
    let a = on_pane_report s.1 r in
    let inv : Inv s.0 a =
      on_pane_report-Inv s.0 s.1 r (run-Inv [] new_task_state_actor es new_task_state_actor-Inv) in
    let taken : Taken (s.0 ++ (take_reports a).0) a (take_reports a).1 =
      take_reports-Taken s.0 a inv in
    let (x, latest, same) = on_pane_report-latest s.1 r h in
    (
      x,
      sym (ap (last_report (trim_space r.pane_id)) (append-nil (s.0 ++ (take_reports a).0)))
          ∙ (sym (
              ap (λ q. last_report (trim_space r.pane_id) (s.0 ++ (take_reports a).0 ++ q))
                taken.1))
          ∙ taken.0.known (trim_space r.pane_id)
          ∙ ap (λ m. m (trim_space r.pane_id)) taken.2
          ∙ latest,
      same,
    )
