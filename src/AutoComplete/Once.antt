-- ===== src/AutoComplete/Once.antt =====
-- AutoCompleteByPane: an observation of a pane triggers at most once.
use shellman.Base.{
  ℕ, ◌≤◌, ◌<◌, ◌≡◌, ◌≢◌, refl, sym, ap, ◌∙◌, Bool, true, false, List, [], ◌∷◌, Option, none, some,
  arith, Text, codes, is_empty, trim_space, trim_space_idem, if◌then◌else◌, ◌==◌, text_eq,
  text_eq_iff, ◌&&◌, subst,
}
use shellman.Runs.Tables.{
  Db, Task, progress_row, upsert_progress, try_mark_task_auto_progress_observed,
}
use shellman.Runs.Progress.{mark_of, is_newer, try_mark_task_auto_progress_observed-mark}
use shellman.AutoComplete.Lookups.{Found, find_task_by_pane_target}
use shellman.AutoComplete.Completing.{Faults, Setting}
use shellman.AutoComplete.Handler.{
  AutoCompleteByPaneInput, at_second, Outcome, skipped, unless, look_up_run, when_accepted,
  mark_observed, advises, is_pane_actor, with_found, with_lookup, auto_complete_by_pane,
}
use shellman.AutoComplete.Marks.{look_up_run-SameMarks}

-- A call by the actor of a pane, in which the statements up to the mark have no fault: the pane has
-- a task, which is not in the advisor's mode, and the observation has a time.
pub record IsPaneCall (setting : Setting) (faults : Faults) (db : Db)
    (input : AutoCompleteByPaneInput) (sec : ℕ) (f : Found) : Type 0 where
  pub named : trim_space input.pane_target ≢ []
  pub looked_up : faults.task_lookup ≡ none
  pub found : find_task_by_pane_target db setting.projects (trim_space input.pane_target) ≡ some f
  pub has_id : trim_space f.entry.task_id ≢ []
  pub from_pane : is_pane_actor setting faults input.trigger_source ≡ true
  pub acting : advises setting faults f.entry ≡ false
  pub observed : input.observed_last_active_at ≡ at_second sec
  pub timed : 0 < sec
  pub marked : faults.mark ≡ none

-- The row that is marked.
abbrev marked_task : Found → Task
marked_task f = record f.entry {
  task_id = trim_space f.entry.task_id;
  project_id = f.project.project_id;
  active_adapter = [];
}

not_empty : (s : Text) → s ≢ [] → is_empty s ≡ false
not_empty [] h = absurd (h refl)
not_empty (c ∷ s) h = refl

unless-none :
    (fault : Option Text) (db : Db) (code : Text) (rest : Outcome)
    → fault ≡ none
    → unless fault db code rest ≡ rest
unfolding unless
unless-none none db code rest e = refl
unless-none (some err) db code rest e = cc

pick_else : (a : Bool) (x y : Outcome) → a ≡ false → (if a then x else y) ≡ y
pick_else a x y e = ground arith

pick_third :
    (a b c : Bool) (x y z w : Outcome)
    → a ≡ false
    → b ≡ true
    → c ≡ false
    → (if a then x else (if b then (if c then y else z) else w)) ≡ z
pick_third a b c x y z w ea eb ec = ground arith

module _ (setting : Setting) (faults : Faults) (db : Db) (input : AutoCompleteByPaneInput) (sec : ℕ)
    (f : Found) where
  abbrev marking : Db × Bool
  marking =
      try_mark_task_auto_progress_observed db f.project.repo_root (marked_task f) sec setting.now

  abbrev going_on : Db → Outcome
  going_on d =
      look_up_run setting faults d f.project (trim_space f.entry.task_id)
        (trim_space input.pane_target) input.summary

  mark_at_second :
      0 < sec
      → faults.mark ≡ none
      → mark_observed setting faults db f.project f.entry
          (trim_space f.entry.task_id)
          (at_second sec)
          going_on
        ≡ when_accepted setting faults (trim_space f.entry.task_id) marking going_on
  unfolding mark_observed
  mark_at_second p e =
      let code = codes "TASK_AUTOPROGRESS_MARK_FAILED" in
      let rest = when_accepted setting faults (trim_space f.entry.task_id) marking going_on in
      pick_else (sec == 0) (going_on db) (unless faults.mark db code rest) (ground arith)
      ∙ unless-none faults.mark db code rest e

  found_call :
      IsPaneCall setting faults db input sec f
      → with_found setting faults db input (trim_space input.pane_target) f.project f.entry
        ≡ when_accepted setting faults (trim_space f.entry.task_id) marking going_on
  unfolding with_found
  found_call c =
      pick_third _ _ _ _ _ _ _ (not_empty (trim_space f.entry.task_id) c.has_id) c.from_pane
        c.acting
      ∙ ap
          (λ at.
            mark_observed setting faults db f.project f.entry (trim_space f.entry.task_id) at
              going_on)
          c.observed
      ∙ mark_at_second c.timed c.marked

  auto_complete_call :
      IsPaneCall setting faults db input sec f
      → auto_complete_by_pane setting faults db input
        ≡ when_accepted setting faults (trim_space f.entry.task_id) marking going_on
  unfolding auto_complete_by_pane
  auto_complete_call c =
      pick_else _ _ _ (not_empty (trim_space input.pane_target) c.named)
      ∙ unless-none _ _ _ _ c.looked_up
      ∙ ap (with_lookup setting faults db input (trim_space input.pane_target)) c.found
      ∙ unfold with_lookup in found_call c

  -- The mark of the task after the call is not older than the observation.
  mark_after :
      (r : Db × Bool)
      → (r.1 ≡ true → mark_of (trim_space f.entry.task_id) r.0.tasks ≡ some sec)
      → (r.1 ≡ false → is_newer (mark_of (trim_space f.entry.task_id) r.0.tasks) sec ≡ false)
      → let o = when_accepted setting faults (trim_space f.entry.task_id) r going_on in
        is_newer (mark_of (trim_space f.entry.task_id) o.db.tasks) sec ≡ false
  unfolding when_accepted skipped
  mark_after (d, true) h k =
      ap (λ m. is_newer m sec)
        (look_up_run-SameMarks setting faults d f.project (trim_space f.entry.task_id)
            (trim_space input.pane_target) input.summary (trim_space f.entry.task_id)
          ∙ h refl)
      ∙ ground arith
  mark_after (d, false) h k = k refl

refused_same :
    (ts : List Task) (row : Task)
    → (upsert_progress ts row).1 ≡ false
    → (upsert_progress ts row).0 ≡ ts
unfolding upsert_progress
refused_same [] row e = cc
refused_same (t ∷ ts) row e = ground (arith, refused_same ts row)

newer_before :
    (m : Option ℕ) (sec sec' : ℕ) → is_newer m sec ≡ false → sec' ≤ sec → is_newer m sec' ≡ false
newer_before none sec sec' e h = cc
newer_before (some mark) sec sec' e h = ground arith

same_unless :
    (b : Bool) (db : Db) (tasks : List Task) (accepted : Bool)
    → (accepted ≡ false → tasks ≡ db.tasks)
    → let r : Db × Bool = if b then (db, false) else (record db { tasks = tasks }, accepted) in
      r.1 ≡ false → r.0 ≡ db
same_unless true db tasks accepted h e = refl
same_unless false db tasks accepted h e = ap {B = Db} (λ ts. record db { tasks = ts }) (h e)

module _ (db : Db) (repo_root : Text) (task : Task) (sec now : ℕ) (p : trim_space task.task_id ≢ [])
    (q : 0 < sec) where
  abbrev tried : Db × Bool
  tried = try_mark_task_auto_progress_observed db repo_root task sec now

  tried_accepted : tried.1 ≡ is_newer (mark_of (trim_space task.task_id) db.tasks) sec
  tried_accepted =
      (try_mark_task_auto_progress_observed-mark db repo_root task sec now (trim_space task.task_id)
        p q).0

  tried_mark : mark_of (trim_space task.task_id) tried.0.tasks ≡ (
      if tried.1 && text_eq (trim_space task.task_id) (trim_space task.task_id)
      then some sec
      else mark_of (trim_space task.task_id) db.tasks)
  tried_mark =
      (try_mark_task_auto_progress_observed-mark db repo_root task sec now (trim_space task.task_id)
        p q).1

  tried_new : tried.1 ≡ true → mark_of (trim_space task.task_id) tried.0.tasks ≡ some sec
  tried_new e =
      tried_mark
      ∙ ground (arith, e, text_eq_iff (trim_space task.task_id) (trim_space task.task_id))

  tried_same : tried.1 ≡ false → tried.0 ≡ db
  unfolding try_mark_task_auto_progress_observed
  tried_same e =
      same_unless _ db _ _ (refused_same db.tasks (progress_row repo_root task sec now)) e

  tried_old :
      tried.1 ≡ false → is_newer (mark_of (trim_space task.task_id) tried.0.tasks) sec ≡ false
  tried_old e =
      ap (λ d. is_newer (mark_of (trim_space task.task_id) d.tasks) sec) (tried_same e)
      ∙ sym tried_accepted
      ∙ e

-- A second call that comes after a mark that is not older.
when_refused :
    (setting : Setting) (faults : Faults) (task_id : Text) (r : Db × Bool) (rest : Db → Outcome)
    → r.1 ≡ false
    → when_accepted setting faults task_id r rest
      ≡ skipped r.0 (codes "duplicate-observed-last-active-at") [] task_id (codes "skipped")
unfolding when_accepted
when_refused setting faults task_id (d, true) rest e = cc
when_refused setting faults task_id (d, false) rest e = refl

still_named :
    (f : Found) → trim_space f.entry.task_id ≢ [] → trim_space (marked_task f).task_id ≢ []
still_named f h = λ e. h (sym (trim_space_idem f.entry.task_id) ∙ e)

module _ (setting : Setting) (faults : Faults) (db : Db) (input : AutoCompleteByPaneInput) (sec : ℕ)
    (f : Found) (c : IsPaneCall setting faults db input sec f) where
  call_mark :
      let o = auto_complete_by_pane setting faults db input in
      is_newer (mark_of (trim_space f.entry.task_id) o.db.tasks) sec ≡ false
  call_mark =
      let id = trim_space f.entry.task_id in
      let r = marking setting faults db input sec f in
      let named = still_named f c.has_id in
      let repo = f.project.repo_root in
      ap (λ (o : Outcome). is_newer (mark_of id o.db.tasks) sec)
        (auto_complete_call setting faults db input sec f c)
      ∙ mark_after setting faults db input sec f r
          (subst (λ k. r.1 ≡ true → mark_of k r.0.tasks ≡ some sec)
            (trim_space_idem f.entry.task_id)
            (tried_new db repo (marked_task f) sec setting.now named c.timed))
          (subst (λ k. r.1 ≡ false → is_newer (mark_of k r.0.tasks) sec ≡ false)
            (trim_space_idem f.entry.task_id)
            (tried_old db repo (marked_task f) sec setting.now named c.timed))

  call_refused :
      is_newer (mark_of (trim_space f.entry.task_id) db.tasks) sec ≡ false
      → (marking setting faults db input sec f).1 ≡ false
  call_refused h =
      tried_accepted db f.project.repo_root (marked_task f) sec setting.now (still_named f c.has_id)
        c.timed
      ∙ ap (λ k. is_newer (mark_of k db.tasks) sec) (trim_space_idem f.entry.task_id)
      ∙ h

-- When the actor of a pane has called with an observation of a task, a call with an observation
-- that is not later, of the same task, is skipped as a duplicate and changes no table, whatever the
-- first call came to after its mark, and whichever panes, summaries and settings the two calls have
-- (no statement up to the mark failing in either, and both tasks in a mode that acts).
pub auto_complete_by_pane_once :
    (setting setting' : Setting) (faults faults' : Faults) (db : Db)
    (input input' : AutoCompleteByPaneInput) (sec sec' : ℕ) (f f' : Found)
    → let o = auto_complete_by_pane setting faults db input in
      IsPaneCall setting faults db input sec f
      → IsPaneCall setting' faults' o.db input' sec' f'
      → trim_space f'.entry.task_id ≡ trim_space f.entry.task_id
      → sec' ≤ sec
      → auto_complete_by_pane setting' faults' o.db input'
        ≡ skipped o.db
            (codes "duplicate-observed-last-active-at")
            []
            (trim_space f'.entry.task_id)
            (codes "skipped")
auto_complete_by_pane_once setting setting' faults faults' db input input' sec sec' f f' c c' same
      h =
    let o = auto_complete_by_pane setting faults db input in
    let fresh = call_refused setting' faults' o.db input' sec' f' c' (
      subst (λ id. is_newer (mark_of id o.db.tasks) sec' ≡ false) (sym same)
        (newer_before (mark_of (trim_space f.entry.task_id) o.db.tasks) sec sec'
          (call_mark setting faults db input sec f c) h)) in
    auto_complete_call setting' faults' o.db input' sec' f' c'
    ∙ when_refused setting' faults' (trim_space f'.entry.task_id)
        (marking setting' faults' o.db input' sec' f')
        (going_on setting' faults' o.db input' sec' f') fresh
    ∙ ap
        (λ d.
          skipped d (codes "duplicate-observed-last-active-at") [] (trim_space f'.entry.task_id)
            (codes "skipped"))
        (tried_same o.db f'.project.repo_root (marked_task f') sec' setting'.now
          (still_named f' c'.has_id) c'.timed fresh)
