-- ===== src/Hub/Removing.antt =====
-- removedPaneTargets.
use shellman.Base.{
  ◌≡◌, Bool, true, false, not, ◌&&◌, ◌||◌, List, [], ◌∷◌, arith, if◌then◌else◌, Text, text_eq,
  text_eq_iff, text_eq_refl, is_empty, trim_space, mem, IsDistinct, Map,
}
use shellman.Hub.Topology.{is_there, removed_from, removed_pane_targets}

-- Whether a pane with the target is in the list and not in the later map.
unfoldable pub is_gone : Text → Map Text → List (Text × Text) → Bool
is_gone target after [] = false
is_gone target after ((pane_id, raw) ∷ panes) =
    (not (is_there (after pane_id)) && text_eq (trim_space raw) target)
    || is_gone target after panes

mem-removed_from :
    (target : Text) (seen : List Text) (after : Map Text) (panes : List (Text × Text))
    → mem target (removed_from seen after panes)
      ≡ (not (is_empty target) && is_gone target after panes && not (mem target seen))
unfolding removed_from is_gone mem
mem-removed_from target seen after [] = ground arith
mem-removed_from target seen after ((pane_id, raw) ∷ panes) = ground (
  arith,
  mem-removed_from target seen after panes,
  mem-removed_from target (trim_space raw ∷ seen) after panes,
  text_eq_iff (trim_space raw) target,
)

mem-removed_from_seen :
    (target : Text) (seen : List Text) (after : Map Text) (panes : List (Text × Text))
    → mem target (removed_from (target ∷ seen) after panes) ≡ false
unfolding mem
mem-removed_from_seen target seen after panes =
    ground (arith, mem-removed_from target (target ∷ seen) after panes, text_eq_refl target)

IsDistinct-cases :
    (skip : Bool) (target : Text) (skipped taken : List Text)
    → IsDistinct skipped
    → IsDistinct taken
    → mem target taken ≡ false
    → IsDistinct (if skip then skipped else target ∷ taken)
IsDistinct-cases true target skipped taken h k new = h
IsDistinct-cases false target skipped taken h k new = (new, k)

removed_from-IsDistinct :
    (seen : List Text) (after : Map Text) (panes : List (Text × Text))
    → IsDistinct (removed_from seen after panes)
unfolding removed_from
removed_from-IsDistinct seen after [] = tt
removed_from-IsDistinct seen after ((pane_id, raw) ∷ panes) =
    let target = trim_space raw in
    IsDistinct-cases (is_there (after pane_id) || is_empty target || mem target seen) target
      (removed_from seen after panes) (removed_from (target ∷ seen) after panes)
      (removed_from-IsDistinct seen after panes)
      (removed_from-IsDistinct (target ∷ seen) after panes)
      (mem-removed_from_seen target seen after panes)

-- After a change of the topology, the targets that are reported as closed are, each once, just the
-- ones that are not blank and that a pane had before which is not there any more.
pub removed_pane_targets-is_gone :
    (before : List (Text × Text)) (after : Map Text) (target : Text)
    → let removed = removed_pane_targets before after in
      IsDistinct removed
      × (mem target removed ≡ (not (is_empty target) && is_gone target after before))
unfolding removed_pane_targets mem
removed_pane_targets-is_gone before after target = (
  removed_from-IsDistinct [] after before,
  ground (arith, mem-removed_from target [] after before),
)
