-- ===== src/Activity/Input.antt =====
-- cli/cmd/shellman/input_activity_tracker.go: the time of the last input to each pane.
use shellman.Base.{
  ℕ, ◌≡◌, [], ◌∷◌, Bool, Option, none, some, arith, if◌then◌else◌, Text, text_eq, text_eq_iff,
  is_empty, Map, empty_map, insert, retain,
}

pub record InputActivityTracker : Type 0 where
  pub last : Map ℕ

unfoldable pub new_tracker : InputActivityTracker
new_tracker = record { last = empty_map }

unfoldable pub mark : InputActivityTracker → Text → ℕ → InputActivityTracker
mark t target at = if is_empty target then t else (record { last = insert target at t.last })

-- A missing key reads as the zero time.
unfoldable pub time_or_zero : Option ℕ → ℕ
time_or_zero none = 0
time_or_zero (some at) = at

unfoldable pub last : InputActivityTracker → Text → ℕ
unfolding time_or_zero
last t target = if is_empty target then 0 else time_or_zero (t.last target)

unfoldable pub delete_missing : InputActivityTracker → (Text → Bool) → InputActivityTracker
delete_missing t valid = record { last = retain (λ target _. valid target) t.last }

-- What a read gives after a mark and a cleanup, for every pane: the pane that was marked reads the
-- new time, any other reads what it read before, and a pane that is not valid reads the zero time.
pub last-delete_missing-mark :
    (t : InputActivityTracker) (target other : Text) (at : ℕ) (valid : Text → Bool)
    → last (delete_missing (mark t target at) valid) other ≡ (
        if is_empty other
        then 0
        else (if valid other then (if text_eq target other then at else last t other) else 0))
unfolding last delete_missing mark insert retain
last-delete_missing-mark t [] other at valid = ground (arith, text_eq_iff [] other)
last-delete_missing-mark t (c ∷ s) other at valid = ground arith
