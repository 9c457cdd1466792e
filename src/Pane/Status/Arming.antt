-- ===== src/Pane/Status/Arming.antt =====
-- emitStatusWithHash over a history: when a pane's run is completed by itself.
use shellman.Base.{
  ℕ, ◌≡◌, refl, ◌∙◌, Bool, true, false, not, ◌&&◌, ◌||◌, List, [], ◌∷◌, ◌++◌, Option, none, some,
  is_some, arith, if◌then◌else◌, Text, text_eq, is_empty, trim_space,
}
use shellman.Session.{
  Timing, PaneStatusState, SessionStatus, unset, running, unknown, ready, status_eq,
  normalize_session_status,
}
use shellman.Activity.Suppression.{Store, consume_auto_progress_suppression}
use shellman.Pane.Status.{
  PaneStatus, Reading, emit_status_with_hash, advance, arm, previous, from_tmux, becomes_ready,
  trigger_auto_completion,
}

-- Whether a sample has another hash; and whether one has another than the first.
unfoldable pub any_other : Text → List Reading → Bool
any_other h [] = false
any_other h (r ∷ rs) = not (text_eq r.curr_hash h) || any_other h rs

unfoldable pub has_changed : List Reading → Bool
unfolding any_other
has_changed [] = false
has_changed (r ∷ rs) = any_other r.curr_hash rs

or_assoc : (a b c : Bool) → ((a || b) || c) ≡ (a || (b || c))
or_assoc a b c = ground arith

module _ (timing : Timing) (target : Text) where
  -- The samples of a pane, one after another.
  unfoldable pub run_readings : PaneStatus → Store → List Reading → PaneStatus × Store
  unfolding emit_status_with_hash
  run_readings p store [] = (p, store)
  run_readings p store (r ∷ rs) =
      let e = emit_status_with_hash timing target p store r in run_readings e.pane e.suppression rs

  advance_captured :
      (p : PaneStatus) (r : Reading) → (advance timing target p r).startup_hash_captured ≡ true
  unfolding advance arm
  advance_captured p r = ground arith

  advance_armed :
      (p : PaneStatus) (r : Reading)
      → p.startup_hash_captured ≡ true
      → let q = advance timing target p r in
        (q.startup_hash ≡ p.startup_hash)
        × (q.auto_process_armed
            ≡ (p.auto_process_armed || not (text_eq r.curr_hash p.startup_hash)))
  unfolding advance arm
  advance_armed p r e = ground arith

  advance_first :
      (p : PaneStatus) (r : Reading)
      → p.startup_hash_captured ≡ false
      → let q = advance timing target p r in
        (q.startup_hash ≡ r.curr_hash) × (q.auto_process_armed ≡ p.auto_process_armed)
  unfolding advance arm
  advance_first p r e = ground arith

  last_armed :
      (p : PaneStatus) (store : Store) (rs : List Reading) (last : Reading)
      → p.startup_hash_captured ≡ true
      → (advance timing target (run_readings p store rs).0 last).auto_process_armed
        ≡ (p.auto_process_armed || any_other p.startup_hash (rs ++ last ∷ []))
  unfolding run_readings any_other
  last_armed p store [] last e = ground (arith, advance_armed p last e)
  last_armed p store (r ∷ rs) last e =
      last_armed (advance timing target p r)
        (emit_status_with_hash timing target p store r).suppression rs last (advance_captured p r)
      ∙ rw ((advance_armed p r e).0, (advance_armed p r e).1)
          (or_assoc p.auto_process_armed (not (text_eq r.curr_hash p.startup_hash))
            (any_other p.startup_hash (rs ++ last ∷ [])))

  history_armed :
      (p : PaneStatus) (store : Store) (rs : List Reading) (last : Reading)
      → p.startup_hash_captured ≡ false
      → p.auto_process_armed ≡ false
      → (advance timing target (run_readings p store rs).0 last).auto_process_armed
        ≡ has_changed (rs ++ last ∷ [])
  unfolding run_readings has_changed
  history_armed p store [] last e a = (advance_first p last e).1 ∙ a
  history_armed p store (r ∷ rs) last e a =
      last_armed (advance timing target p r)
        (emit_status_with_hash timing target p store r).suppression rs last (advance_captured p r)
      ∙ rw ((advance_first p r e).0, (advance_first p r e).1, a) refl

  from_tmux_emitted :
      (prev : PaneStatusState) (at : Option ℕ) (now : ℕ)
      → (from_tmux prev at now).emitted ≡ prev.emitted
  unfolding from_tmux
  from_tmux_emitted prev none now = refl
  from_tmux_emitted prev (some at) now = ground arith

  rebased_emitted :
      (s : PaneStatusState) (hash : Text) (rebase seed : Bool) (at : Option ℕ) (now : ℕ)
      → let prev = if rebase then record s { prev_hash = hash } else s in
        (if seed then from_tmux prev at now else prev).emitted ≡ s.emitted
  rebased_emitted s hash true true at now = from_tmux_emitted (record s { prev_hash = hash }) at now
  rebased_emitted s hash true false at now = refl
  rebased_emitted s hash false true at now = from_tmux_emitted s at now
  rebased_emitted s hash false false at now = refl

  previous_emitted :
      (p : PaneStatus) (r : Reading) → (previous p r).emitted ≡ p.status_state.emitted
  unfolding previous
  previous_emitted p r = rebased_emitted p.status_state r.curr_hash _ _ r.pane_last_active_at r.now

  normalize_ready :
      (s : SessionStatus) → status_eq (normalize_session_status s) ready ≡ status_eq s ready
  unfolding status_eq normalize_session_status
  normalize_ready unset = refl
  normalize_ready running = refl
  normalize_ready ready = refl
  normalize_ready unknown = refl

  emit_trigger :
      (p : PaneStatus) (store : Store) (r : Reading)
      → let e = emit_status_with_hash timing target p store r in
        is_some e.trigger ≡ (
          e.pane.auto_process_armed
          && not (is_empty (trim_space target))
          && not (status_eq p.status_state.emitted ready)
          && status_eq e.pane.status_state.emitted ready
          && not (consume_auto_progress_suppression store target r.curr_hash r.consumed_at).1)
  unfolding emit_status_with_hash becomes_ready trigger_auto_completion
  emit_trigger p store r = ground (
    arith,
    previous_emitted p r,
    normalize_ready (previous p r).emitted,
    normalize_ready (advance timing target p r).status_state.emitted,
  )

  -- In every history of a new actor, whatever its baseline is, a sample makes the executor
  -- complete a run of the pane just if some sample of the history has another hash than the first,
  -- the status turns to `ready` with this sample, no suppression of the hash is consumed, and the
  -- pane's target is not blank.
  pub run_readings-trigger :
      (p : PaneStatus) (store : Store) (rs : List Reading) (last : Reading)
      → p.startup_hash_captured ≡ false
      → p.auto_process_armed ≡ false
      → let (q, s) = run_readings p store rs in
        let e = emit_status_with_hash timing target q s last in
        is_some e.trigger ≡ (
          has_changed (rs ++ last ∷ [])
          && not (is_empty (trim_space target))
          && not (status_eq q.status_state.emitted ready)
          && status_eq e.pane.status_state.emitted ready
          && not (consume_auto_progress_suppression s target last.curr_hash last.consumed_at).1)
  unfolding emit_status_with_hash has_changed
  run_readings-trigger p store rs last e a =
      emit_trigger (run_readings p store rs).0 (run_readings p store rs).1 last
      ∙ rw (history_armed p store rs last e a) refl
