-- ===== src/Baseline/Merging.antt =====
-- mergePaneBaseline over many candidates.
use shellman.Base.{
  ℕ, ◌≡◌, refl, sym, ◌∙◌, Bool, true, false, not, ◌&&◌, ◌||◌, List, [], ◌∷◌, Option, none, some,
  arith, ltb, ◌==◌, if◌then◌else◌, Text, text_eq, text_eq_iff, is_empty, Map, insert, empty_map,
}
use shellman.Pane.Status.{PaneRuntimeBaseline}
use shellman.Baseline.{is_known, is_blank, merged, merge_pane_baseline}

-- The time and the status of an entry, if there is one.
abbrev pub last_of : Option PaneRuntimeBaseline → ℕ
last_of none = 0
last_of (some b) = b.last_active_at

abbrev pub knows : Option PaneRuntimeBaseline → Bool
unfolding is_known
knows none = false
knows (some b) = is_known b.runtime_status

unfoldable pub merge_all :
    Map PaneRuntimeBaseline → List (Text × PaneRuntimeBaseline) → Map PaneRuntimeBaseline
merge_all m [] = m
merge_all m ((target, c) ∷ cs) = merge_all (merge_pane_baseline m target c) cs

-- The greatest time of the candidates of a target, and whether one of a time has a status.
unfoldable pub latest : Text → List (Text × PaneRuntimeBaseline) → ℕ
latest target [] = 0
latest target ((t, c) ∷ cs) =
    let rest = latest target cs in
    if text_eq t target && ltb rest c.last_active_at then c.last_active_at else rest

unfoldable pub known_at : ℕ → Text → List (Text × PaneRuntimeBaseline) → Bool
unfolding is_known
known_at time target [] = false
known_at time target ((t, c) ∷ cs) =
    (text_eq t target && (c.last_active_at == time) && is_known c.runtime_status)
    || known_at time target cs

merge_pane_baseline-last_of :
    (m : Map PaneRuntimeBaseline) (t target : Text) (c : PaneRuntimeBaseline)
    → is_empty target ≡ false
    → last_of (merge_pane_baseline m t c target) ≡ (
        if text_eq t target && ltb (last_of (m target)) c.last_active_at
        then c.last_active_at
        else last_of (m target))
unfolding merge_pane_baseline insert merged is_blank
merge_pane_baseline-last_of m t target c h = ground (arith, h, text_eq_iff t target)

merge_pane_baseline-knows :
    (m : Map PaneRuntimeBaseline) (t target : Text) (c : PaneRuntimeBaseline)
    → is_empty target ≡ false
    → knows (merge_pane_baseline m t c target) ≡ (
        if not (text_eq t target) || ltb c.last_active_at (last_of (m target))
        then knows (m target)
        else if ltb (last_of (m target)) c.last_active_at
        then is_known c.runtime_status
        else knows (m target) || is_known c.runtime_status)
unfolding merge_pane_baseline insert merged is_blank is_known
merge_pane_baseline-knows m t target c h = ground (arith, h, text_eq_iff t target)

abbrev top : ℕ → ℕ → ℕ
top a b = if ltb a b then b else a

top_step :
    (b : Bool) (next last new rest : ℕ)
    → next ≡ (if b && ltb last new then new else last)
    → top next rest ≡ top last (if b && ltb rest new then new else rest)
top_step b next last new rest e = ground (arith, e)

top_zero : (n : ℕ) → top 0 n ≡ n
top_zero n = ground arith

or_nothing : (b : Bool) → (b || false) ≡ b
or_nothing true = refl
or_nothing false = refl

merge_all-last_of :
    (m : Map PaneRuntimeBaseline) (target : Text) (cs : List (Text × PaneRuntimeBaseline))
    → is_empty target ≡ false
    → last_of (merge_all m cs target) ≡ top (last_of (m target)) (latest target cs)
unfolding merge_all latest
merge_all-last_of m target [] h = ground arith
merge_all-last_of m target ((t, c) ∷ cs) h =
    let next = last_of (merge_pane_baseline m t c target) in
    merge_all-last_of (merge_pane_baseline m t c) target cs h
    ∙ top_step (text_eq t target) next (last_of (m target)) c.last_active_at (latest target cs)
        (merge_pane_baseline-last_of m t target c h)

knows_step :
    (b known new_known next_known later : Bool) (next last new rest time : ℕ)
    → time ≡ top last (if b && ltb rest new then new else rest)
    → next ≡ (if b && ltb last new then new else last)
    → next_known ≡ (
        if not b || ltb new last
        then known
        else if ltb last new
        then new_known
        else known || new_known)
    → (later || (next_known && (next == time)))
      ≡ ((b && (new == time) && new_known) || later) || (known && (last == time))
knows_step b known new_known next_known later next last new rest time e f g =
    ground (arith, e, f, g)

merge_all-knows :
    (m : Map PaneRuntimeBaseline) (target : Text) (cs : List (Text × PaneRuntimeBaseline))
    (time : ℕ)
    → is_empty target ≡ false
    → time ≡ top (last_of (m target)) (latest target cs)
    → knows (merge_all m cs target)
      ≡ (known_at time target cs || (knows (m target) && (last_of (m target) == time)))
unfolding merge_all latest known_at
merge_all-knows m target [] time h e = ground (arith, e)
merge_all-knows m target ((t, c) ∷ cs) time h e =
    let n = merge_pane_baseline m t c in
    merge_all-knows n target cs time h (
      e
      ∙ sym (
          top_step (text_eq t target) (last_of (n target)) (last_of (m target)) c.last_active_at
            (latest target cs) (merge_pane_baseline-last_of m t target c h)))
    ∙ knows_step (text_eq t target) (knows (m target)) (is_known c.runtime_status)
        (knows (n target)) (known_at time target cs) (last_of (n target)) (last_of (m target))
        c.last_active_at (latest target cs) time e (merge_pane_baseline-last_of m t target c h)
        (merge_pane_baseline-knows m t target c h)

-- In whatever order the candidates are merged: the entry of a target that is not blank has the
-- greatest of its candidates' times, and it has a status other than `unknown` just if one of the
-- candidates of that time has.
pub merge_all-latest :
    (target : Text) (cs : List (Text × PaneRuntimeBaseline))
    → is_empty target ≡ false
    → let o = merge_all empty_map cs target in
      (last_of o ≡ latest target cs) × (knows o ≡ known_at (latest target cs) target cs)
unfolding known_at
merge_all-latest target cs h =
    let e = top_zero (latest target cs) in
    (
      merge_all-last_of empty_map target cs h ∙ e,
      merge_all-knows empty_map target cs (latest target cs) h (sym e)
          ∙ or_nothing (known_at (latest target cs) target cs),
    )
