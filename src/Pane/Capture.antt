-- ===== src/Pane/Capture.antt =====
-- captureResetSnapshot and captureResetSnapshotConsistent: what is shown to a new subscriber. tmux
-- is asked for the screen, the cursor, and the screen again; its answers are inputs.
use shellman.Base.{
  ℕ, zero, suc, ◌+◌, ◌<◌, ◌≡◌, ◌≢◌, ◌⊎◌, inl, inr, refl, true, false, List, Option, none, some,
  arith, if◌then◌else◌, Text, text_eq, text_eq_iff, Bool-cases, dec_lt, subst, sym, ap, ◌∙◌,
}
use shellman.Stream.Pump.{Capture, captured, failed, is_pane_target_missing_error}

-- The result of `CursorPosition`.
pub data Cursor : Type 0 where
  cursor_at : ℕ → ℕ → Cursor
  cursor_failed : Text → Cursor

-- The answers in one attempt: the cursor, and the screen after it.
pub record Answers : Type 0 where
  pub cursor : Cursor
  pub check : Capture

-- The result: a screen with a cursor or without one, or an error.
pub data ResetSnapshot : Type 0 where
  reset : List ℕ → Option (ℕ × ℕ) → ResetSnapshot
  reset_failed : Text → ResetSnapshot

abbrev pub max_attempts : ℕ
max_attempts = 3

-- `capture` of captureResetSnapshot: the history stands in for a screen that cannot be read.
unfoldable pub capture_or_history : Capture → Capture → Capture
capture_or_history (captured snapshot) history = captured snapshot
capture_or_history (failed err) history =
    if is_pane_target_missing_error err then failed err else history

-- After the check of an attempt that has a cursor; `again` is the result of the later attempts.
check_screen : List ℕ → ℕ → ℕ → Capture → (List ℕ → ResetSnapshot) → ResetSnapshot
check_screen snapshot x y (failed err) again =
    if is_pane_target_missing_error err then reset_failed err else reset snapshot (some (x, y))
check_screen snapshot x y (captured snapshot_check) again =
    let rest = again snapshot_check in
    if text_eq snapshot_check snapshot then reset snapshot (some (x, y)) else rest

-- One attempt.
try_cursor : List ℕ → Cursor → Capture → (List ℕ → ResetSnapshot) → ResetSnapshot
unfolding check_screen
try_cursor snapshot (cursor_failed err) check again =
    if is_pane_target_missing_error err then reset_failed err else reset snapshot none
try_cursor snapshot (cursor_at x y) check again = check_screen snapshot x y check again

-- The loop from an attempt on, with the attempts that are left.
unfoldable pub attempt_loop : ℕ → ℕ → (ℕ → Answers) → List ℕ → ResetSnapshot
unfolding try_cursor
attempt_loop zero attempt answers snapshot = reset snapshot none
attempt_loop (suc left) attempt answers snapshot =
    try_cursor snapshot (answers attempt).cursor (answers attempt).check
      (attempt_loop left (suc attempt) answers)

unfoldable pub capture_reset_snapshot_consistent : Capture → (ℕ → Answers) → ResetSnapshot
unfolding attempt_loop
capture_reset_snapshot_consistent (failed err) answers = reset_failed err
capture_reset_snapshot_consistent (captured snapshot) answers =
    attempt_loop max_attempts 0 answers snapshot

-- The screens in the order in which they are read.
unfoldable pub screen : Capture → (ℕ → Answers) → ℕ → Capture
screen first answers zero = first
screen first answers (suc n) = (answers n).check

-- Why a result may be returned.
pub data Justified (first : Capture) (answers : ℕ → Answers) : ResetSnapshot → Type 0 where
  -- The first screen cannot be read.
  no_screen : {err : Text} → first ≡ failed err → Justified first answers (reset_failed err)
  -- tmux says in an attempt that the pane is gone.
  gone :
      {err : Text} (k : ℕ)
      → k < max_attempts
      → is_pane_target_missing_error err ≡ true
      → ((answers k).cursor ≡ cursor_failed err) ⊎ ((answers k).check ≡ failed err)
      → Justified first answers (reset_failed err)
  -- The cursor cannot be read after the screen, for another reason.
  no_cursor :
      {snapshot : List ℕ} {err : Text} (k : ℕ)
      → k < max_attempts
      → screen first answers k ≡ captured snapshot
      → (answers k).cursor ≡ cursor_failed err
      → is_pane_target_missing_error err ≡ false
      → Justified first answers (reset snapshot none)
  -- The screen is the same before and after the cursor is read.
  confirmed :
      {snapshot : List ℕ} {x y : ℕ} (k : ℕ)
      → k < max_attempts
      → screen first answers k ≡ captured snapshot
      → (answers k).cursor ≡ cursor_at x y
      → screen first answers (suc k) ≡ captured snapshot
      → Justified first answers (reset snapshot (some (x, y)))
  -- The screen cannot be read after the cursor, though the pane is not gone.
  unchecked :
      {snapshot : List ℕ} {x y : ℕ} {err : Text} (k : ℕ)
      → k < max_attempts
      → screen first answers k ≡ captured snapshot
      → (answers k).cursor ≡ cursor_at x y
      → (answers k).check ≡ failed err
      → is_pane_target_missing_error err ≡ false
      → Justified first answers (reset snapshot (some (x, y)))
  -- The screen differs from the one before in every attempt.
  restless :
      {snapshot : List ℕ}
      → screen first answers max_attempts ≡ captured snapshot
      → ((k : ℕ) → k < max_attempts → screen first answers (suc k) ≢ screen first answers k)
      → Justified first answers (reset snapshot none)

module _ (first : Capture) (answers : ℕ → Answers) where
  -- The screen changed in each attempt so far.
  abbrev Changing : ℕ → Type 0
  Changing n = (k : ℕ) → k < n → screen first answers (suc k) ≢ screen first answers k

  captured_eq : (s t : List ℕ) → captured s ≡ captured t → s ≡ t
  captured_eq s t e = cc

  Changing-suc :
      (n : ℕ)
      → Changing n
      → screen first answers (suc n) ≢ screen first answers n
      → Changing (suc n)
  Changing-suc n c h k p = elim (dec_lt k n) [
    | yes less ↦ c k less
    | no last ↦ subst (λ m. screen first answers (suc m) ≢ screen first answers m) (omega arith) h
  ]

  module _ (k : ℕ) (within : k < max_attempts) (snapshot : List ℕ)
      (e : screen first answers k ≡ captured snapshot) (again : List ℕ → ResetSnapshot)
      (later : (next : List ℕ)
        → (answers k).check ≡ captured next
        → next ≢ snapshot
        → Justified first answers (again next)) where
    check_screen-Justified :
        (x y : ℕ) (check : Capture)
        → (answers k).cursor ≡ cursor_at x y
        → (answers k).check ≡ check
        → Justified first answers (check_screen snapshot x y check again)
    unfolding check_screen
    check_screen-Justified x y (failed err) c h =
        elim (Bool-cases (is_pane_target_missing_error err)) [
          | inl m ↦ rw m (gone k within m (inr h))
          | inr m ↦ rw m (unchecked k within e c h m)
        ]
    check_screen-Justified x y (captured next) c h = elim (Bool-cases (text_eq next snapshot)) [
      | inl same ↦ rw same (
          confirmed k within e c
            (unfold screen in h ∙ ap captured ((text_eq_iff next snapshot).0 same)))
      | inr other ↦ rw other (later next h (ground (arith, text_eq_iff next snapshot)))
    ]

    try_cursor-Justified :
        (cursor : Cursor) (check : Capture)
        → (answers k).cursor ≡ cursor
        → (answers k).check ≡ check
        → Justified first answers (try_cursor snapshot cursor check again)
    unfolding try_cursor
    try_cursor-Justified (cursor_failed err) check c h =
        elim (Bool-cases (is_pane_target_missing_error err)) [
          | inl m ↦ rw m (gone k within m (inl c))
          | inr m ↦ rw m (no_cursor k within e c m)
        ]
    try_cursor-Justified (cursor_at x y) check c h = check_screen-Justified x y check c h

  changed :
      (k : ℕ) (snapshot next : List ℕ)
      → screen first answers k ≡ captured snapshot
      → (answers k).check ≡ captured next
      → next ≢ snapshot
      → screen first answers (suc k) ≢ screen first answers k
  unfolding screen
  changed k snapshot next e h d = λ same. d (captured_eq next snapshot (sym h ∙ same ∙ e))

  attempt_loop-Justified :
      (left attempt : ℕ) (snapshot : List ℕ)
      → left + attempt ≡ max_attempts
      → screen first answers attempt ≡ captured snapshot
      → Changing attempt
      → Justified first answers (attempt_loop left attempt answers snapshot)
  unfolding attempt_loop
  attempt_loop-Justified zero attempt snapshot n e c =
      restless (subst (λ m. screen first answers m ≡ captured snapshot) (omega arith) e)
        (subst Changing (omega arith) c)
  attempt_loop-Justified (suc left) attempt snapshot n e c =
      try_cursor-Justified attempt (omega arith) snapshot e
        (attempt_loop left (suc attempt) answers)
        (λ next h d.
          attempt_loop-Justified left (suc attempt) next (omega arith) (unfold screen in h)
            (Changing-suc attempt c (changed attempt snapshot next e h d)))
        (answers attempt).cursor (answers attempt).check refl refl

-- Whatever tmux answers, the result is justified by the answers: a cursor is given only with a
-- screen that was read before it and again after it (or could not be read again, though the pane is
-- not gone); an error is the one of the first screen, or says that the pane is gone; and the screen
-- alone is given if the cursor cannot be read, or if the screen changed in each of three attempts.
pub capture_reset_snapshot_consistent-Justified :
    (first : Capture) (answers : ℕ → Answers)
    → Justified first answers (capture_reset_snapshot_consistent first answers)
unfolding capture_reset_snapshot_consistent
capture_reset_snapshot_consistent-Justified (failed err) answers = no_screen refl
capture_reset_snapshot_consistent-Justified (captured snapshot) answers =
    attempt_loop-Justified (captured snapshot) answers max_attempts 0 snapshot (omega arith)
      (unfold screen in refl) (λ k p. absurd (omega arith))
