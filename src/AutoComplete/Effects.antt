-- ===== src/AutoComplete/Effects.antt =====
-- AutoCompleteByPane: what is told to the other parts, on every branch.
use shellman.Base.{
  ℕ, List, [], ◌∷◌, codes, ◌⊎◌, subst, sym, text_eq, ◌||◌, ◌≡◌, refl, inl, inr, Bool, true, false,
  Option, none, some, Text, is_empty, trim_space, if◌then◌else◌, ◌==◌,
}
use shellman.Runs.Tables.{
  Db, Task, TaskRun, RunBinding, get_run, try_mark_task_auto_progress_observed, append_run_event,
  get_live_binding_by_run_id,
}
use shellman.Runs.Bindings.{own_key, invalidate_binding, invalidate_binding_if_server_changed}
use shellman.AutoComplete.Finishing.{
  IsCompleted, Finished, complete_run_and_enqueue_actions-Finished,
}
use shellman.AutoComplete.Lookups.{
  Project, Found, RunLookupCandidate, or_run, first_live,
  find_live_running_run_by_pane_target_for_task,
}
use shellman.AutoComplete.Completing.{
  complete_run_and_enqueue_actions, update_task_status_internal, status_completed, Faults, Setting,
  Notice,
}
use shellman.AutoComplete.Handler.{
  AutoCompleteByPaneInput, Observed, before_epoch, at_second, Reply, failed, replied, Outcome,
  skipped, refused, completed, unless, finish_run, with_binding, finish_task, proceed, look_up_run,
  when_accepted, mark_observed, advises, is_pane_actor, with_found, with_lookup,
  auto_complete_by_pane,
}

-- What is told, given the tables and the reply: an error and a result that is not triggered tell
-- nothing; a triggered one tells its run, its task and its summary, and its run, if there is one, is
-- completed in the tables.
unfoldable pub Told : Db → Reply → Option Notice → Type 0
Told db (failed code message) notice = notice ≡ none
Told db (replied r) none = r.triggered ≡ false
Told db (replied r) (some notice) =
    (r.triggered ≡ true)
    × (notice.run_id ≡ r.run_id)
    × (notice.task_id ≡ r.task_id)
    × (notice.summary ≡ r.summary_used)
    × ((r.run_id ≡ []) ⊎ IsCompleted db r.run_id)

unfoldable IsTold : Outcome → Type 0
IsTold o = Told o.db o.reply o.notice

-- A run that is found for a pane is the one in the tables.
live-cases :
    (b : Bool) (o rest : Option TaskRun) (run : TaskRun)
    → (if b then or_run o rest else rest) ≡ some run
    → (o ≡ some run) ⊎ (rest ≡ some run)
live-cases true none rest run e = inr e
live-cases true (some r) rest run e = inl e
live-cases false o rest run e = inr e

first_live-get_run :
    (db : Db) (task_id : Text) (cs : List RunLookupCandidate) (run : TaskRun)
    → first_live db task_id cs ≡ some run
    → get_run db run.run_id ≡ some run
unfolding first_live
first_live-get_run db task_id [] run e = cc
first_live-get_run db task_id (c ∷ cs) run e =
    elim (live-cases _ (get_run db c.run.run_id) (first_live db task_id cs) run e) [
      | inl f ↦
          subst (λ k. get_run db k ≡ some run)
            (sym (unfold get_run in own_key db.task_runs c.run.run_id run f)) f
      | inr f ↦ first_live-get_run db task_id cs run f
    ]

-- A binding that is not invalidated changes nothing.
kept-cases :
    (b : Bool) (db other : Db)
    → let r : Db × Bool = if b then (db, false) else (other, true) in r.1 ≡ false → r.0 ≡ db
kept-cases true db other h = refl
kept-cases false db other h = cc

kept_binding :
    (db : Db) (run_id server : Text) (payload : Text → Text → Text) (now : ℕ)
    (b : Option RunBinding)
    → let r = invalidate_binding db run_id server payload now b in r.1 ≡ false → r.0 ≡ db
unfolding invalidate_binding
kept_binding db run_id server payload now none h = refl
kept_binding db run_id server payload now (some b) h =
    kept-cases (is_empty (trim_space server) || text_eq b.server_instance_id server) db _ h

unless-IsTold :
    (fault : Option Text) (db : Db) (code : Text) (rest : Outcome)
    → IsTold rest
    → IsTold (unless fault db code rest)
unfolding IsTold unless Told refused
unless-IsTold none db code rest h = h
unless-IsTold (some err) db code rest h = refl

skipped-IsTold :
    (db : Db) (reason run_id task_id status : Text)
    → IsTold (skipped db reason run_id task_id status)
unfolding IsTold Told skipped
skipped-IsTold db reason run_id task_id status = refl

refused-IsTold : (db : Db) (code message : Text) → IsTold (refused db code message)
unfolding IsTold Told refused
refused-IsTold db code message = refl

either-cases : (b : Bool) (x y : Outcome) → IsTold x → IsTold y → IsTold (if b then x else y)
either-cases true x y hx hy = hx
either-cases false x y hx hy = hy

found-cases :
    (blank from_pane advised : Bool) (a b c d : Outcome)
    → IsTold a
    → IsTold b
    → IsTold c
    → IsTold d
    → IsTold (if blank then a else (if from_pane then (if advised then b else c) else d))
found-cases true from_pane advised a b c d ha hb hc hd = ha
found-cases false true true a b c d ha hb hc hd = hb
found-cases false true false a b c d ha hb hc hd = hc
found-cases false false advised a b c d ha hb hc hd = hd

module _ (setting : Setting) (faults : Faults) where
  finish_run-IsTold :
      (run : TaskRun) (summary : Text) (r : Db × (Text ⊎ Notice))
      → Finished run.run_id run.task_id summary r
      → IsTold (finish_run setting faults run summary r)
  unfolding IsTold finish_run Told refused completed Finished
  finish_run-IsTold run summary (db, inl err) h = refl
  finish_run-IsTold run summary (db, inr notice) h = (refl, h.0, h.1, h.2, inr h.3)

  with_binding-IsTold :
      (run : TaskRun) (pane_target summary : Text) (r : Db × Bool)
      → (r.1 ≡ false → get_run r.0 run.run_id ≡ some run)
      → IsTold (with_binding setting faults run pane_target summary r)
  unfolding with_binding
  with_binding-IsTold run pane_target summary (db, true) h = skipped-IsTold db _ _ _ _
  with_binding-IsTold run pane_target summary (db, false) h =
      let idle =
        append_run_event db run.run_id (codes "auto_complete.pane_idle")
          (setting.idle_json pane_target) setting.now in
      finish_run-IsTold run summary
        (complete_run_and_enqueue_actions setting faults idle run.run_id summary)
        (complete_run_and_enqueue_actions-Finished setting faults idle run.run_id summary run
          (unfold append_run_event get_run in h refl))

  finish_task-IsTold :
      (p : Project) (task_id summary : Text) (r : Db × Option Text)
      → IsTold (finish_task setting faults p task_id summary r)
  unfolding IsTold finish_task Told refused completed
  finish_task-IsTold p task_id summary (db, none) = (refl, refl, refl, refl, inl refl)
  finish_task-IsTold p task_id summary (db, some err) = refl

  proceed-IsTold :
      (db : Db) (p : Project) (task_id pane_target summary : Text) (run : Option TaskRun)
      → ((r : TaskRun) → run ≡ some r → get_run db r.run_id ≡ some r)
      → IsTold (proceed setting faults db p task_id pane_target summary run)
  unfolding proceed invalidate_binding_if_server_changed
  proceed-IsTold db p task_id pane_target summary none h =
      finish_task-IsTold p task_id summary
        (update_task_status_internal faults.update_status db p task_id status_completed setting.now)
  proceed-IsTold db p task_id pane_target summary (some run) h =
      unless-IsTold faults.binding_check db _ _ (
        with_binding-IsTold run pane_target summary _ (λ k.
          subst (λ d. get_run d run.run_id ≡ some run)
            (sym (
              kept_binding db run.run_id setting.current_server setting.restart_json setting.now
                (get_live_binding_by_run_id db run.run_id) k))
            (h run refl)))

  look_up_run-IsTold :
      (db : Db) (p : Project) (task_id pane_target summary : Text)
      → IsTold (look_up_run setting faults db p task_id pane_target summary)
  unfolding look_up_run find_live_running_run_by_pane_target_for_task
  look_up_run-IsTold db p task_id pane_target summary =
      unless-IsTold faults.run_lookup db _ _
        (proceed-IsTold db p task_id pane_target _ _ (λ r e. first_live-get_run db task_id _ r e))

  when_accepted-IsTold :
      (task_id : Text) (r : Db × Bool) (rest : Db → Outcome)
      → ((db : Db) → IsTold (rest db))
      → IsTold (when_accepted setting faults task_id r rest)
  unfolding when_accepted
  when_accepted-IsTold task_id (db, true) rest h = h db
  when_accepted-IsTold task_id (db, false) rest h = skipped-IsTold db _ _ _ _

  mark_observed-IsTold :
      (db : Db) (p : Project) (entry : Task) (task_id : Text) (at : Observed) (rest : Db → Outcome)
      → ((d : Db) → IsTold (rest d))
      → IsTold (mark_observed setting faults db p entry task_id at rest)
  unfolding mark_observed
  mark_observed-IsTold db p entry task_id before_epoch rest h = refused-IsTold db _ _
  mark_observed-IsTold db p entry task_id (at_second sec) rest h =
      either-cases (sec == 0) _ _ (h db) (
        unless-IsTold faults.mark db _ _ (
          when_accepted-IsTold task_id
            (try_mark_task_auto_progress_observed db p.repo_root
              (record entry { task_id = task_id; project_id = p.project_id; active_adapter = [] })
              sec setting.now)
            rest h))

  with_found-IsTold :
      (db : Db) (input : AutoCompleteByPaneInput) (pane_target : Text) (p : Project) (entry : Task)
      → IsTold (with_found setting faults db input pane_target p entry)
  unfolding with_found
  with_found-IsTold db input pane_target p entry =
      let task_id = trim_space entry.task_id in
      let rest = λ (d : Db). look_up_run setting faults d p task_id pane_target input.summary in
      found-cases (is_empty task_id) (is_pane_actor setting faults input.trigger_source)
        (advises setting faults entry) _ _ _ _ (refused-IsTold db _ _) (skipped-IsTold db _ _ _ _)
        (mark_observed-IsTold db p entry task_id input.observed_last_active_at rest
          (λ d. look_up_run-IsTold d p task_id pane_target input.summary))
        (look_up_run-IsTold db p task_id pane_target input.summary)

  with_lookup-IsTold :
      (db : Db) (input : AutoCompleteByPaneInput) (pane_target : Text) (found : Option Found)
      → IsTold (with_lookup setting faults db input pane_target found)
  unfolding with_lookup
  with_lookup-IsTold db input pane_target none = skipped-IsTold db _ _ _ _
  with_lookup-IsTold db input pane_target (some found) =
      with_found-IsTold db input pane_target found.project found.entry

  auto_complete_by_pane-IsTold :
      (db : Db) (input : AutoCompleteByPaneInput)
      → IsTold (auto_complete_by_pane setting faults db input)
  unfolding auto_complete_by_pane
  auto_complete_by_pane-IsTold db input =
      either-cases (is_empty (trim_space input.pane_target)) _ _ (refused-IsTold db _ _)
        (unless-IsTold faults.task_lookup db _ _ (with_lookup-IsTold db input _ _))

  -- Whatever the tables, the input and the faults are: an error and a result that is not triggered
  -- tell the other parts nothing. A triggered result tells them just its run, its task and its
  -- summary, and its run, if it has one, is then in the tables and completed.
  pub auto_complete_by_pane-Told :
      (db : Db) (input : AutoCompleteByPaneInput)
      → let o = auto_complete_by_pane setting faults db input in Told o.db o.reply o.notice
  unfolding IsTold
  auto_complete_by_pane-Told db input = auto_complete_by_pane-IsTold db input
