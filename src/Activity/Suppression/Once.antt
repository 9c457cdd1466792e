-- ===== src/Activity/Suppression/Once.antt =====
-- A registration suppresses at most one automatic progress, and only while it is live.
use shellman.Base.{
  ℕ, ◌+◌, ◌≤◌, ◌<◌, ◌≡◌, ◌≢◌, Bool, true, false, ◌&&◌, List, [], ◌∷◌, Option, none, some, arith,
  if◌then◌else◌, Text, text_eq, text_eq_iff, trim_space, trim_space_idem, insert, delete, retain,
}
use shellman.Activity.Suppression.{
  Store, Entry, Call, registers, consumes, register_auto_progress_suppression,
  consume_auto_progress_suppression, step,
}

-- A change that is registered with a pane and a hash is consumed by the first call for the same
-- pane and hash (up to white space around both) before the time to live is over, and by that call
-- only: the next one, at any time, finds nothing.
pub register_consume_once :
    (s : Store) (pane hash pane' hash' : Text) (now soon later : ℕ)
    → trim_space pane ≢ []
    → trim_space hash ≢ []
    → trim_space pane' ≡ trim_space pane
    → trim_space hash' ≡ trim_space hash
    → soon < now + s.ttl
    → let t = register_auto_progress_suppression s pane hash true now in
      let (u, first) = consume_auto_progress_suppression t pane' hash' soon in
      (first ≡ true) × ((consume_auto_progress_suppression u pane' hash' later).1 ≡ false)
unfolding register_auto_progress_suppression consume_auto_progress_suppression insert delete retain
register_consume_once s pane hash pane' hash' now soon later p h p' h' fresh = ground (
  arith,
  text_eq_iff (trim_space pane) (trim_space pane'),
  text_eq_iff (trim_space pane) (trim_space pane),
  text_eq_iff (trim_space (trim_space hash)) (trim_space hash'),
  text_eq_iff (trim_space (trim_space hash)) (trim_space hash),
  trim_space_idem hash,
)

-- The calls that consume for a pane and find an entry, in a run.
pub consumed : Text → Store → List Call → ℕ
consumed p s [] = 0
consumed p s (registers q h c now ∷ rest) = consumed p (step s (registers q h c now)).0 rest
consumed p s (consumes q h now ∷ rest) =
    let (t, hit) = step s (consumes q h now) in
    (if hit && text_eq (trim_space q) p then 1 else 0) + consumed p t rest

-- The calls that report a changed hash of the pane.
pub registered : Text → List Call → ℕ
registered p [] = 0
registered p (registers q h c now ∷ rest) =
    (if c && text_eq (trim_space q) p then 1 else 0) + registered p rest
registered p (consumes q h now ∷ rest) = registered p rest

present_entry : Option Entry → ℕ
present_entry none = 0
present_entry (some e) = 1

present : Text → Store → ℕ
unfolding present_entry
present p s = present_entry (s.entries p)

register-present :
    (p q h : Text) (c : Bool) (now : ℕ) (s : Store)
    → present p (step s (registers q h c now)).0
      ≤ present p s + (if c && text_eq (trim_space q) p then 1 else 0)
unfolding present step insert retain
register-present p q h c now s = ground arith

consume-present :
    (p q h : Text) (now : ℕ) (s : Store)
    → (if (step s (consumes q h now)).1 && text_eq (trim_space q) p then 1 else 0)
        + present p (step s (consumes q h now)).0
      ≤ present p s
unfolding present step delete retain
consume-present p q h now s = ground (arith, text_eq_iff (trim_space q) p)

consumed-present :
    (p : Text) (s : Store) (calls : List Call)
    → consumed p s calls ≤ present p s + registered p calls
unfolding consumed registered
consumed-present p s [] = omega arith
consumed-present p s (registers q h c now ∷ rest) = omega (
  arith,
  register-present p q h c now s,
  consumed-present p (step s (registers q h c now)).0 rest,
)
consumed-present p s (consumes q h now ∷ rest) =
    omega
      (arith, consume-present p q h now s, consumed-present p (step s (consumes q h now)).0 rest)

-- In every history that starts with no entry, the automatic progress of a pane is suppressed at
-- most as often as changes of its hash were registered.
pub consumed-le-registered :
    (p : Text) (s : Store) (calls : List Call)
    → s.entries p ≡ none
    → consumed p s calls ≤ registered p calls
unfolding present
consumed-le-registered p s calls e = ground (arith, consumed-present p s calls)
