-- ===== src/Stream/Pump/Sync.antt =====
-- Every tick of the pump keeps the terminal in step with the last snapshot.
use shellman.Base.{
  ◌++◌, subst, true, ℕ, ◌+◌, ◌≡◌, ◌≢◌, inl, inr, refl, sym, ap, ◌∙◌, Bool, false, not, ◌&&◌, ◌||◌,
  List, [], ◌∷◌, none, arith, ltb, leb, ◌==◌, Text, codes, text_eq, text_eq_iff, is_empty, length,
  drop, All, Bool-cases, has_prefix,
}
use shellman.Target.{ActiveTarget, Call}
use shellman.Target
use shellman.Stream.{decide_delta, repaint}
use shellman.Stream.Utf8.{valid_string, valid_string-behind}
use shellman.Stream.Pump.{
  of_pane, Capture, captured, failed, TickInput, PumpState, initial_state, Outcome,
  send_pane_ended_event, end_pane, Captured, gone, give_up, got, note_pending, clear_pending,
  send_reset, switch_to, send_delta, follow, tick, of_history, is_pane_target_missing_error,
  debug_line_count, cursor_changed, settle_time,
}
use shellman.Stream.Pump.View.{Terminal, show, show_all, show_reset, show_append, has_prefix-drop}

-- What other goroutines do to the active target before a tick, and the tick's input.
pub record Round : Type 0 where
  pub calls : List Call
  pub input : TickInput

-- A capture that is valid UTF-8, and what it comes to.
abbrev pub IsUtf8 : Capture → Type 0
IsUtf8 (captured s) = valid_string s ≡ true
IsUtf8 (failed err) = Unit

abbrev HasUtf8 : Captured → Type 0
HasUtf8 (gone err) = Unit
HasUtf8 give_up = Unit
HasUtf8 (got used s) = valid_string s ≡ true

of_pane-HasUtf8 : (pane : Capture) → IsUtf8 pane → HasUtf8 (of_pane pane)
of_pane-HasUtf8 (captured s) v = unfold of_pane in v
of_pane-HasUtf8 (failed err) v = elim (Bool-cases (is_pane_target_missing_error err)) [
  | inl e ↦ unfold of_pane in rw e tt
  | inr e ↦ unfold of_pane in rw e tt
]

of_history-HasUtf8 :
    (history pane : Capture) → IsUtf8 history → IsUtf8 pane → HasUtf8 (of_history history pane)
of_history-HasUtf8 (failed err) pane v w = elim (Bool-cases (is_pane_target_missing_error err)) [
  | inl e ↦ unfold of_history in rw e tt
  | inr e ↦ unfold of_history in rw e (of_pane-HasUtf8 pane w)
]
of_history-HasUtf8 (captured []) pane v w = unfold of_history in of_pane-HasUtf8 pane w
of_history-HasUtf8 (captured (c ∷ s)) pane v w = unfold of_history in v

-- No send fails in the tick, and its captures are valid UTF-8.
pub record IsClean (r : Round) : Type 0 where
  pub sends : r.input.accepts ≡ none
  pub history : IsUtf8 r.input.history
  pub pane : IsUtf8 r.input.pane

repaint-valid : (s : List ℕ) → valid_string s ≡ true → valid_string (repaint ++ s) ≡ true
unfolding valid_string
repaint-valid s v = v

empty_valid : valid_string [] ≡ true
unfolding valid_string
empty_valid = refl

-- A delta of valid texts is valid.
decide_delta-valid :
    (prev curr : List ℕ)
    → valid_string prev ≡ true
    → valid_string curr ≡ true
    → valid_string (decide_delta prev curr (not (text_eq curr prev))).payload ≡ true
decide_delta-valid prev curr v w = elim (Bool-cases (text_eq curr prev)) [
  | inl same ↦ unfold decide_delta in rw same (unfold valid_string in refl)
  | inr changed ↦ elim (Bool-cases (has_prefix prev curr)) [
    | inl grown ↦
        unfold decide_delta in
        rw (changed, grown)
          (valid_string-behind prev (drop (length prev) curr) v
            (subst (λ s. valid_string s ≡ true) (sym (has_prefix-drop prev curr grown)) w))
    | inr redrawn ↦ unfold decide_delta in rw (changed, redrawn) (repaint-valid curr w)
  ]
]

module _ (terminal : Terminal) where
  open terminal use {Screen, blank, feed, feed_append, feed_repaint, feed_nil}

  -- The terminal of the pane that is followed shows the last snapshot, which is valid UTF-8.
  abbrev Synced : PumpState → (Text → Screen) → Type 0
  Synced p screens =
      (valid_string p.last_snapshot ≡ true)
      × (p.last_target ≢ [] → screens p.last_target ≡ feed blank p.last_snapshot)

  abbrev After : (Text → Screen) → Outcome → Type 0
  After screens o = Synced o.state (show_all terminal screens o.sent)

  end_pane-After :
      (p : PumpState) (a : ActiveTarget) (current err : Text) (screens : Text → Screen)
      → Synced p screens
      → After screens (end_pane p a current err)
  unfolding end_pane send_pane_ended_event
  end_pane-After p a [] err screens h = unfold show_all in h
  end_pane-After p a (c ∷ s) err screens h = unfold show_all show in h

  same-After :
      (p : PumpState) (a : ActiveTarget) (screens : Text → Screen)
      → Synced p screens
      → After screens (record { state = p; active = a; sent = [] })
  same-After p a screens h = unfold show_all in h

  send_reset-After :
      (p : PumpState) (a : ActiveTarget) (input : TickInput) (snapshot : List ℕ)
      (screens : Text → Screen)
      → input.accepts ≡ none
      → valid_string snapshot ≡ true
      → After screens (send_reset p a input snapshot)
  unfolding send_reset
  send_reset-After p a input snapshot screens e v =
      rw e (v, λ _. show_reset terminal screens a.target snapshot input.cursor v)

  note_pending-Synced :
      (p : PumpState) (current : Text) (now : ℕ) (screens : Text → Screen)
      → Synced p screens
      → Synced (note_pending p current now) screens
  note_pending-Synced p current now screens h =
      elim (Bool-cases (text_eq p.pending_switch_target current)) [
        | inl e ↦ unfold note_pending in rw e h
        | inr e ↦ unfold note_pending in rw e h
      ]

  switch_to-After :
      (p : PumpState) (a : ActiveTarget) (input : TickInput) (c : Captured)
      (screens : Text → Screen)
      → input.accepts ≡ none
      → HasUtf8 c
      → Synced p screens
      → After screens (switch_to p a input c)
  switch_to-After p a input (gone err) screens e v h =
      unfold switch_to in end_pane-After p a a.target err screens h
  switch_to-After p a input give_up screens e v h = unfold switch_to in same-After p a screens h
  switch_to-After p a input (got used snapshot) screens e v h =
      elim (Bool-cases (not used && leb (debug_line_count snapshot) 1)) [
        | inl short ↦
            elim (Bool-cases (
              ltb input.later
                ((note_pending p a.target input.now).pending_switch_since + settle_time))) [
                  | inl wait ↦
                      unfold switch_to in
                      rw (short, wait)
                        (same-After (note_pending p a.target input.now) a screens
                          (note_pending-Synced p a.target input.now screens h))
                  | inr go ↦
                      unfold switch_to in
                      rw (short, go)
                        (send_reset-After (note_pending p a.target input.now) a input snapshot
                          screens e v)
                ]
        | inr long ↦
            unfold switch_to in
            rw long (send_reset-After (clear_pending p) a input snapshot screens e v)
      ]

  -- Feeding a delta to the old screen gives the new one, whichever kind it is.
  pub decide_delta-feed :
      (prev curr : List ℕ)
      → feed (feed blank prev) (decide_delta prev curr (not (text_eq curr prev))).payload
        ≡ feed blank curr
  decide_delta-feed prev curr = elim (Bool-cases (text_eq curr prev)) [
    | inl same ↦
        unfold decide_delta in
        rw same
          (feed_nil (feed blank prev) ∙ ap (feed blank) (sym ((text_eq_iff curr prev).0 same)))
    | inr changed ↦ elim (Bool-cases (has_prefix prev curr)) [
      | inl grown ↦
          unfold decide_delta in
          rw (changed, grown)
            (feed_append blank prev (drop (length prev) curr)
              ∙ ap (feed blank) (has_prefix-drop prev curr grown))
      | inr redrawn ↦
          unfold decide_delta in rw (changed, redrawn) (feed_repaint (feed blank prev) curr)
    ]
  ]

  decide_delta-mode :
      (prev curr : List ℕ) (changed : Bool) → (decide_delta prev curr changed).mode ≡ codes "append"
  unfolding decide_delta
  decide_delta-mode prev curr changed = ground arith

  send_delta-After :
      (p : PumpState) (a : ActiveTarget) (input : TickInput) (snapshot : List ℕ)
      (screens : Text → Screen)
      → input.accepts ≡ none
      → a.target ≢ []
      → a.target ≡ p.last_target
      → valid_string snapshot ≡ true
      → Synced p screens
      → After screens (
          send_delta p a input snapshot
            (decide_delta p.last_snapshot snapshot (not (text_eq snapshot p.last_snapshot))))
  unfolding send_delta
  send_delta-After p a input snapshot screens e some_target same v h =
      let delta = decide_delta p.last_snapshot snapshot (not (text_eq snapshot p.last_snapshot)) in
      rw
        (
          e,
          decide_delta-mode p.last_snapshot snapshot (not (text_eq snapshot p.last_snapshot)),
          same,
        )
        (
          v,
          λ k.
              show_append terminal screens p.last_target delta.payload input.cursor
                (decide_delta-valid p.last_snapshot snapshot h.0 v)
              ∙ ap (λ s. feed s delta.payload) (h.1 k)
              ∙ decide_delta-feed p.last_snapshot snapshot,
        )

  follow-After :
      (p : PumpState) (a : ActiveTarget) (input : TickInput) (c : Capture) (screens : Text → Screen)
      → input.accepts ≡ none
      → a.target ≢ []
      → a.target ≡ p.last_target
      → IsUtf8 c
      → Synced p screens
      → After screens (follow p a input c)
  follow-After p a input (failed err) screens e t same v h =
      elim (Bool-cases (is_pane_target_missing_error err)) [
        | inl missing ↦ unfold follow in rw missing (end_pane-After p a a.target err screens h)
        | inr other ↦ unfold follow in rw other (same-After p a screens h)
      ]
  follow-After p a input (captured snapshot) screens e t same v h =
      elim (Bool-cases
        (text_eq snapshot p.last_snapshot && not (cursor_changed input.cursor p.last_cursor))) [
          | inl still ↦ unfold follow in rw still (same-After p a screens h)
          | inr moved ↦
              unfold follow in rw moved (send_delta-After p a input snapshot screens e t same v h)
        ]

  is_empty-nil : (t : Text) → is_empty t ≡ false → t ≢ []
  is_empty-nil [] h = λ e. cc
  is_empty-nil (c ∷ s) h = λ e. cc

  tick-After :
      (p : PumpState) (a : ActiveTarget) (input : TickInput) (screens : Text → Screen)
      → input.accepts ≡ none
      → IsUtf8 input.history
      → IsUtf8 input.pane
      → Synced p screens
      → After screens (tick p a input)
  tick-After p a input screens e v w h = elim (Bool-cases (is_empty a.target)) [
    | inl idle ↦ unfold tick in rw idle (same-After p a screens h)
    | inr busy ↦
        elim (Bool-cases
          (not (text_eq a.target p.last_target) || not (a.version == p.last_target_version))) [
            | inl switched ↦
                unfold tick in
                rw (busy, switched)
                  (switch_to-After p a input (of_history input.history input.pane) screens e
                    (of_history-HasUtf8 input.history input.pane v w) h)
            | inr steady ↦
                unfold tick in
                rw (busy, steady)
                  (follow-After (clear_pending p) a input input.pane screens e
                    (is_empty-nil a.target busy)
                    (unfold clear_pending in (text_eq_iff a.target p.last_target).0 (ground arith))
                    w (unfold clear_pending in h))
          ]
  ]

  -- The pump among calls that move the active target: the state and the terminals.
  unfoldable pub run :
      PumpState → ActiveTarget → (Text → Screen) → List Round → PumpState × (Text → Screen)
  run p a screens [] = (p, screens)
  run p a screens (r ∷ rounds) =
      let o = tick p (Target.run a r.calls) r.input in
      run o.state o.active (show_all terminal screens o.sent) rounds

  run-Synced :
      (p : PumpState) (a : ActiveTarget) (screens : Text → Screen) (rounds : List Round)
      → All IsClean rounds
      → Synced p screens
      → Synced (run p a screens rounds).0 (run p a screens rounds).1
  unfolding run
  run-Synced p a screens [] e h = h
  run-Synced p a screens (r ∷ rounds) e h =
      let o = tick p (Target.run a r.calls) r.input in
      run-Synced o.state o.active (show_all terminal screens o.sent) rounds e.1
        (tick-After p (Target.run a r.calls) r.input screens e.0.sends e.0.history e.0.pane h)

  -- While no send fails and what tmux captures is valid UTF-8, after any number of ticks, whatever
  -- else tmux and the clock answer and however the active target is moved between the ticks: when the
  -- data of the messages, after its JSON coding, is written on a terminal for its pane (from a blank
  -- screen at a reset), the terminal of the pane that the pump followed last looks just as if the
  -- pump's last snapshot were written on a blank screen, though it was sent as resets, appended
  -- tails and repaints, cut into frames.
  pub run_in_step :
      (a : ActiveTarget) (screens : Text → Screen) (rounds : List Round)
      → All IsClean rounds
      → (run initial_state a screens rounds).0.last_target ≢ []
      → (run initial_state a screens rounds).1 (run initial_state a screens rounds).0.last_target
        ≡ feed blank (run initial_state a screens rounds).0.last_snapshot
  run_in_step a screens rounds e =
      (run-Synced initial_state a screens rounds e
        (unfold initial_state in (empty_valid, λ k. absurd (k refl)))).1
