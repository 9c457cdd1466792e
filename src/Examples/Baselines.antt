-- ===== src/Examples/Baselines.antt =====
-- Examples of cli/cmd/shellman/runtime_status_baseline.go.
use shellman.Base.{ℕ, ◌≡◌, refl, List, [], ◌∷◌, Text, codes, empty_map}
use shellman.Session.{ready, unknown}
use shellman.Pane.Status.{PaneRuntimeBaseline}
use shellman.Baseline.Merging.{last_of, knows, merge_all, latest, known_at, merge_all-latest}

abbrev at : ℕ → PaneRuntimeBaseline
at time = record { last_active_at = time; runtime_status = unknown; snapshot_hash = [] }

abbrev candidates : List (Text × PaneRuntimeBaseline)
candidates =
    (codes "%1", at 5)
    ∷ (codes "%1", at 9)
    ∷ (codes "%2", at 12)
    ∷ (codes "%1", record { last_active_at = 9; runtime_status = ready; snapshot_hash = codes "h" })
    ∷ []

merge_all-latest_example :
    let o = merge_all empty_map candidates (codes "%1") in
    (last_of o ≡ latest (codes "%1") candidates)
    × (knows o ≡ known_at (latest (codes "%1") candidates) (codes "%1") candidates)
merge_all-latest_example = merge_all-latest (codes "%1") candidates refl
