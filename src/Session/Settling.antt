-- ===== src/Session/Settling.antt =====
-- advancePaneStatus over many samples: what settles, and how fast the shown status can change.
use shellman.Base.{
  ℕ, ◌+◌, ◌≤◌, ◌<◌, ◌≡◌, ◌≢◌, ◌⊎◌, inl, refl, List, [], ◌∷◌, ◌++◌, arith, Text, text_eq_iff, All,
}
use shellman.Session.{
  unset, ready, PaneStatusState, Timing, Sample, advance_pane_status, run_samples,
}

-- A pane whose snapshot has been `h` since the time `since`.
record Quiet (h : Text) (since : ℕ) (s : PaneStatusState) : Type 0 where
  same : s.prev_hash ≡ h
  heading : (s.emitted ≡ ready) ⊎ ((s.candidate ≡ ready) × (s.candidate_since ≤ since))

module _ (timing : Timing) (h : Text) (some_snapshot : h ≢ []) where
  start-Quiet :
      (s : PaneStatusState) (now last_input_at : ℕ)
      → s.prev_hash ≡ h
      → s.candidate_since ≤ now
      → Quiet h now (advance_pane_status s timing h now last_input_at)
  unfolding advance_pane_status
  start-Quiet s now last_input_at e past =
      ground (arith, text_eq_iff s.prev_hash h, text_eq_iff h h)

  advance-Quiet :
      (s : PaneStatusState) (since now last_input_at : ℕ)
      → Quiet h since s
      → Quiet h since (advance_pane_status s timing h now last_input_at)
  unfolding advance_pane_status
  advance-Quiet s since now last_input_at q = ground (arith, text_eq_iff s.prev_hash h)

  Quiet-ready :
      (s : PaneStatusState) (since now last_input_at : ℕ)
      → Quiet h since s
      → since + timing.transition_delay ≤ now
      → (advance_pane_status s timing h now last_input_at).emitted ≡ ready
  unfolding advance_pane_status
  Quiet-ready s since now last_input_at q late = ground (arith, text_eq_iff s.prev_hash h)

  run-Quiet :
      (since : ℕ) (s : PaneStatusState) (mid : List Sample) (last : Sample)
      → Quiet h since s
      → All (λ x. x.curr_hash ≡ h) mid
      → last.curr_hash ≡ h
      → since + timing.transition_delay ≤ last.now
      → (run_samples timing s (mid ++ last ∷ [])).emitted ≡ ready
  unfolding run_samples
  run-Quiet since s [] last q a e late =
      rw e (Quiet-ready s since last.now last.last_input_at q late)
  run-Quiet since s (x ∷ mid) last q a e late = rw a.0 (
      run-Quiet since (advance_pane_status s timing h x.now x.last_input_at) mid last
        (advance-Quiet s since x.now x.last_input_at q) a.1 e late)

  -- A pane whose snapshot, with a hash that is not empty, stays the same as in the sample before
  -- shows `ready` as soon as two samples of it lie the transition delay apart (the first not before
  -- the candidate's own time), whatever it showed before, whatever was typed, and however many
  -- samples of the same snapshot stand between the two.
  pub run_samples_settles :
      (s : PaneStatusState) (first : Sample) (mid : List Sample) (last : Sample)
      → s.prev_hash ≡ h
      → s.candidate_since ≤ first.now
      → first.curr_hash ≡ h
      → All (λ x. x.curr_hash ≡ h) mid
      → last.curr_hash ≡ h
      → first.now + timing.transition_delay ≤ last.now
      → (run_samples timing s (first ∷ mid ++ last ∷ [])).emitted ≡ ready
  unfolding run_samples
  run_samples_settles s first mid last p past e a f late = rw e (
      run-Quiet first.now (advance_pane_status s timing h first.now first.last_input_at) mid last
        (start-Quiet s first.now first.last_input_at p past) a f late)

-- A pane that has shown `s.emitted` since `since` or whose other candidate is not older.
record Fresh (since : ℕ) (s t : PaneStatusState) : Type 0 where
  shown : t.emitted ≡ s.emitted
  young : (t.candidate ≡ s.emitted) ⊎ (since ≤ t.candidate_since)

abbrev pub Within : Timing → ℕ → Sample → Type 0
Within timing since x =
    (x.curr_hash ≢ []) × (since ≤ x.now) × (x.now < since + timing.transition_delay)

module _ (timing : Timing) (since : ℕ) (s : PaneStatusState) (has_status : s.emitted ≢ unset) where
  advance-Fresh :
      (t : PaneStatusState) (x : Sample)
      → Fresh since s t
      → Within timing since x
      → Fresh since s (advance_pane_status t timing x.curr_hash x.now x.last_input_at)
  unfolding advance_pane_status
  advance-Fresh t x f w = ground arith

  run-Fresh :
      (t : PaneStatusState) (samples : List Sample)
      → Fresh since s t
      → All (Within timing since) samples
      → Fresh since s (run_samples timing t samples)
  unfolding run_samples
  run-Fresh t [] f a = f
  run-Fresh t (x ∷ rest) f a =
      run-Fresh (advance_pane_status t timing x.curr_hash x.now x.last_input_at) rest
        (advance-Fresh t x f a.0) a.1

  -- Once a status is both shown and the candidate, samples with a snapshot that are taken from
  -- `since` on and within the transition delay after it leave it shown, in whatever order their
  -- hashes change.
  pub run_samples_steady :
      (samples : List Sample)
      → s.candidate ≡ s.emitted
      → All (Within timing since) samples
      → (run_samples timing s samples).emitted ≡ s.emitted
  run_samples_steady samples e a =
      (run-Fresh s samples (record { shown = refl; young = inl e }) a).shown
