-- ===== src/Examples/Sessions.antt =====
-- Examples of cli/cmd/shellman/session_status.go and active_target.go.
use shellman.Base.{
  ℕ, ◌+◌, ◌≤◌, ◌≡◌, ◌≢◌, ◌⊎◌, refl, List, [], ◌∷◌, arith, Text, codes, text_eq, All,
}
use shellman.Session.{
  running, ready, PaneStatusState, Timing, Sample, advance_pane_status, run_samples,
  status_from_hashes,
}
use shellman.Session.Debounce.{advance_pane_status_debounced, advance_pane_status_echo}
use shellman.Session.Settling.{run_samples_settles, run_samples_steady}
use shellman.Target.{ActiveTarget, Call, sets, selects, clears}
use shellman.Target as T
use shellman.Target.Versions.{run_same_version, NotSelect}

abbrev timing : Timing
timing = record { transition_delay = 3; input_ignore_window = 2 }

abbrev hash : Text
hash = codes "a1"

-- A pane that shows `running`, with `ready` as the candidate since 10.
abbrev waiting : PaneStatusState
waiting = record {
  prev_hash = hash;
  emitted = running;
  candidate = ready;
  candidate_since = 10;
  last_active_at = 5;
}

abbrev at : Text → ℕ → Sample
at h now = record { curr_hash = h; now = now; last_input_at = 0 }

changed_hash : status_from_hashes (codes "a1") (codes "b2") ≡ running
unfolding status_from_hashes text_eq
changed_hash = refl

too_early : (advance_pane_status waiting timing hash 12 0).emitted ≡ running
unfolding advance_pane_status text_eq
too_early = refl

run_samples_settles_example :
    (run_samples timing waiting (at hash 10 ∷ at hash 11 ∷ at hash 14 ∷ [])).emitted ≡ ready
run_samples_settles_example =
    run_samples_settles timing hash (λ e. cc) waiting (at hash 10) (at hash 11 ∷ []) (at hash 14)
      refl (omega arith) refl (refl, tt) refl (omega arith)

abbrev shown : PaneStatusState
shown = record waiting { emitted = ready }

run_samples_steady_example :
    (run_samples timing shown (at (codes "b2") 10 ∷ at hash 12 ∷ [])).emitted ≡ ready
run_samples_steady_example =
    run_samples_steady timing 10 shown (λ e. cc) (at (codes "b2") 10 ∷ at hash 12 ∷ []) refl
      (((λ e. cc), omega arith, omega arith), (((λ e. cc), omega arith, omega arith), tt))

abbrev later : PaneStatusState
later = advance_pane_status waiting timing hash 14 0

advance_pane_status_debounced_example :
    (later.emitted ≡ ready)
    × (later.candidate ≡ ready)
    × (later.candidate_since ≡ 14)
    × ((timing.transition_delay ≡ 0) ⊎ (10 + timing.transition_delay ≤ 14))
unfolding advance_pane_status text_eq
advance_pane_status_debounced_example =
    advance_pane_status_debounced waiting timing hash 14 0 (λ e. cc) (λ e. cc) (λ e. cc)

advance_pane_status_echo_example :
    ((advance_pane_status shown timing (codes "b2") 11 10).emitted ≢ running)
    × ((advance_pane_status shown timing (codes "b2") 11 10).candidate ≢ running)
advance_pane_status_echo_example =
    advance_pane_status_echo shown timing (codes "b2") 11 10 (λ e. cc) (λ e. cc) (omega arith)
      (omega arith)

abbrev selected : ActiveTarget
selected = record { target = codes "e2e:0.0"; version = 7 }

abbrev still : List Call
still = sets (codes "e2e:0.0") ∷ selects [] ∷ clears (codes "e2e:0.1") ∷ []

still_version : (T.run selected still).version ≡ selected.version
unfolding T.run T.step text_eq
still_version = refl

run_same_version_example : ((T.run selected still).target ≡ codes "e2e:0.0") × All NotSelect still
run_same_version_example = run_same_version selected still (omega arith) (omega arith) still_version
