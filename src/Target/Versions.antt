-- ===== src/Target/Versions.antt =====
-- The version tells every change of the active target apart, as long as it does not wrap.
use shellman.Base.{
  ℕ, ◌+◌, ◌^◌, ◌≤◌, ◌<◌, ◌≡◌, refl, ◌∙◌, List, [], ◌∷◌, arith, text_eq_iff, length, All, is_empty,
  not, if◌then◌else◌, text_eq,
}
use shellman.Target.{ActiveTarget, Call, sets, selects, clears, u64, step, run}

-- How often a call moves the version: never or once.
bump : ActiveTarget → Call → ℕ
bump a (sets t) = if is_empty t then 0 else (if not (text_eq a.target t) then 1 else 0)
bump a (selects t) = if is_empty t then 0 else 1
bump a (clears t) = if is_empty t then 0 else (if text_eq a.target t then 1 else 0)

step-version :
    (a : ActiveTarget) (c : Call)
    → a.version < 2 ^ 64
    → (step a c).version ≡ u64 (a.version + bump a c)
unfolding step bump
step-version a (sets t) h = ground arith
step-version a (selects t) h = ground arith
step-version a (clears t) h = ground arith

bump-le-one : (a : ActiveTarget) (c : Call) → bump a c ≤ 1
unfolding bump
bump-le-one a (sets t) = ground arith
bump-le-one a (selects t) = ground arith
bump-le-one a (clears t) = ground arith

still_target : (a : ActiveTarget) (c : Call) → bump a c ≡ 0 → (step a c).target ≡ a.target
unfolding step bump
still_target a (sets t) h = ground (arith, text_eq_iff a.target t)
still_target a (selects t) h = ground arith
still_target a (clears t) h = ground arith

bumps : ActiveTarget → List Call → ℕ
bumps a [] = 0
bumps a (c ∷ cs) = bump a c + bumps (step a c) cs

bumps-le-length : (a : ActiveTarget) (cs : List Call) → bumps a cs ≤ length cs
unfolding bumps
bumps-le-length a [] = omega arith
bumps-le-length a (c ∷ cs) = omega (arith, bump-le-one a c, bumps-le-length (step a c) cs)

run-version :
    (a : ActiveTarget) (cs : List Call)
    → a.version < 2 ^ 64
    → (run a cs).version ≡ u64 (a.version + bumps a cs)
unfolding run bumps
run-version a [] h = omega arith
run-version a (c ∷ cs) h =
    omega (arith, step-version a c h, run-version (step a c) cs (omega (arith, step-version a c h)))

still-run : (a : ActiveTarget) (cs : List Call) → bumps a cs ≡ 0 → (run a cs).target ≡ a.target
unfolding run bumps
still-run a [] h = refl
still-run a (c ∷ cs) h = still-run (step a c) cs (omega arith) ∙ still_target a c (omega arith)

-- The call is no explicit selection of a pane.
abbrev pub NotSelect : Call → Type 0
NotSelect (sets t) = Unit
NotSelect (selects t) = t ≡ []
NotSelect (clears t) = Unit

bump-NotSelect : (a : ActiveTarget) (c : Call) → bump a c ≡ 0 → NotSelect c
unfolding bump
bump-NotSelect a (sets t) h = tt
bump-NotSelect a (selects t) h = ground arith
bump-NotSelect a (clears t) h = tt

bumps-NotSelect : (a : ActiveTarget) (cs : List Call) → bumps a cs ≡ 0 → All NotSelect cs
unfolding bumps
bumps-NotSelect a [] h = tt
bumps-NotSelect a (c ∷ cs) h =
    (bump-NotSelect a c (omega arith), bumps-NotSelect (step a c) cs (omega arith))

-- A reader that sees the same version twice sees the same target, and no pane was selected in
-- between, if fewer than 2^64 calls were made: the pump's test of the version misses no change.
pub run_same_version :
    (a : ActiveTarget) (cs : List Call)
    → a.version < 2 ^ 64
    → length cs < 2 ^ 64
    → (run a cs).version ≡ a.version
    → ((run a cs).target ≡ a.target) × All NotSelect cs
run_same_version a cs h few same =
    let none_made : bumps a cs ≡ 0 = omega (arith, run-version a cs h, bumps-le-length a cs) in
    (still-run a cs none_made, bumps-NotSelect a cs none_made)
