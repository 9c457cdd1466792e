-- ===== src/Target.antt =====
-- cli/cmd/shellman/active_target.go: the pane that the stream pump follows, with a version by which
-- the pump notices a change. The version is a uint64 and wraps.
use shellman.Base.{ℕ, ◌+◌, ◌%◌, ◌^◌, not, List, [], ◌∷◌, if◌then◌else◌, Text, text_eq, is_empty}
pub mod Versions

pub record ActiveTarget : Type 0 where
  pub target : Text
  pub version : ℕ

abbrev pub u64 : ℕ → ℕ
u64 n = n % 2 ^ 64

unfoldable pub new_active_target : Text → ActiveTarget
new_active_target initial = record { target = initial; version = if is_empty initial then 0 else 1 }

unfoldable pub set : ActiveTarget → Text → ActiveTarget
set a target = if is_empty target then a else (record {
  target = target;
  version = if not (text_eq a.target target) then u64 (a.version + 1) else a.version;
})

unfoldable pub select : ActiveTarget → Text → ActiveTarget
select a target =
    if is_empty target then a else (record { target = target; version = u64 (a.version + 1) })

unfoldable pub clear_if : ActiveTarget → Text → ActiveTarget
clear_if a current =
    if is_empty current
    then a
    else (if text_eq a.target current
        then record { target = []; version = u64 (a.version + 1) }
        else a)

unfoldable pub get : ActiveTarget → Text
get a = a.target

unfoldable pub get_with_version : ActiveTarget → Text × ℕ
get_with_version a = (a.target, a.version)

-- The calls that change the target.
pub data Call : Type 0 where
  sets selects clears : Text → Call

unfoldable pub step : ActiveTarget → Call → ActiveTarget
unfolding set select clear_if
step a (sets t) = set a t
step a (selects t) = select a t
step a (clears t) = clear_if a t

unfoldable pub run : ActiveTarget → List Call → ActiveTarget
run a [] = a
run a (c ∷ cs) = run (step a c) cs
