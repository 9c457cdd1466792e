-- ===== src/Conn/Closing.antt =====
-- DropWatch: what is left of a connection's panes when one is closed.
use shellman.Base.{
  ◌≤◌, length, ◌≡◌, ◌≢◌, ◌⊎◌, inl, inr, refl, true, false, List, [], ◌∷◌, arith, Text, text_eq,
  text_eq_iff, trim_space, mem, IsDistinct, All, if◌then◌else◌, Bool-cases, empty-cases,
}
use shellman.Conn.{ConnActor, without, last_or_empty, drop_trimmed, drop_watch}
use shellman.Conn.Watch.{Inv}

abbrev IsTrimmed : Text → Type 0
IsTrimmed t = (trim_space t ≡ t) × (t ≢ [])

mem-without :
    (target t : Text) (xs : List Text)
    → All IsTrimmed xs
    → mem t (without target xs) ≡ (if text_eq target t then false else mem t xs)
unfolding without mem
mem-without target t [] a = ground arith
mem-without target t (x ∷ xs) a = ground (
  arith,
  mem-without target t xs a.1,
  text_eq_iff (trim_space x) target,
  text_eq_iff x target,
  text_eq_iff x t,
  text_eq_iff target t,
)

without-IsDistinct :
    (target : Text) (xs : List Text)
    → All IsTrimmed xs
    → IsDistinct xs
    → IsDistinct (without target xs)
unfolding without
without-IsDistinct target [] a d = tt
without-IsDistinct target (x ∷ xs) a d =
    ground (arith, without-IsDistinct target xs a.1 d.1, mem-without target x xs a.1)

All-without :
    (target : Text) (xs : List Text) → All IsTrimmed xs → All IsTrimmed (without target xs)
unfolding without
All-without target [] a = tt
All-without target (x ∷ xs) a = elim (Bool-cases (text_eq (trim_space x) target)) [
  | inl e ↦ rw e (All-without target xs a.1)
  | inr e ↦ rw e (a.0, All-without target xs a.1)
]

drop_trimmed-Inv : (c : ConnActor) (target : Text) → Inv c → Inv (drop_trimmed c target)
unfolding drop_trimmed
drop_trimmed-Inv c target inv = record {
  same = λ t. ground (arith, inv.same t, mem-without target t c.watch_order inv.trimmed);
  distinct = without-IsDistinct target c.watch_order inv.trimmed inv.distinct;
  trimmed = All-without target c.watch_order inv.trimmed;
}

mem-last_or_empty : (xs : List Text) → (last_or_empty xs ≡ []) ⊎ (mem (last_or_empty xs) xs ≡ true)
unfolding last_or_empty mem
mem-last_or_empty [] = inl refl
mem-last_or_empty (x ∷ []) = inr (ground (arith, text_eq_iff x x))
mem-last_or_empty (x ∷ y ∷ rest) = ground (arith, mem-last_or_empty (y ∷ rest))

-- What a connection looks like after `target` is gone: it is not watched, all else is as before,
-- and if it was selected, then the selection goes to a pane that is watched, or to none.
pub record Dropped (c : ConnActor) (target : Text) (d : ConnActor) : Type 0 where
  pub inv : Inv d
  pub watched :
      (t : Text) → mem t d.watch_order ≡ (if text_eq target t then false else mem t c.watch_order)
  pub selection :
      ((trim_space c.selected ≢ target) × (d.selected ≡ c.selected))
      ⊎ ((trim_space c.selected ≡ target)
          × ((d.selected ≡ []) ⊎ (mem d.selected d.watch_order ≡ true)))
  pub outbound : d.outbound ≡ c.outbound

drop_trimmed-Dropped :
    (c : ConnActor) (target : Text) → Inv c → Dropped c target (drop_trimmed c target)
drop_trimmed-Dropped c target inv = record {
  inv = drop_trimmed-Inv c target inv;
  watched = λ t. unfold drop_trimmed in mem-without target t c.watch_order inv.trimmed;
  selection =
      unfold drop_trimmed in
      ground (
        arith,
        text_eq_iff (trim_space c.selected) target,
        mem-last_or_empty (without target c.watch_order),
      );
  outbound = unfold drop_trimmed in refl;
}

length-without : (target : Text) (xs : List Text) → length (without target xs) ≤ length xs
unfolding without
length-without target [] = omega arith
length-without target (x ∷ xs) = ground (arith, length-without target xs)

-- No pane is watched that was not before.
pub length-drop_watch :
    (c : ConnActor) (target : Text)
    → length (drop_watch c target).watch_order ≤ length c.watch_order
unfolding drop_watch drop_trimmed
length-drop_watch c target = ground (arith, length-without (trim_space target) c.watch_order)

-- `DropWatch` of a target that is not blank does this, and keeps the invariant.
pub drop_watch-Dropped :
    (c : ConnActor) (target : Text)
    → Inv c
    → trim_space target ≢ []
    → Dropped c (trim_space target) (drop_watch c target)
unfolding drop_watch
drop_watch-Dropped c target inv h = elim (empty-cases (trim_space target)) [
  | inl e ↦ absurd (h (ground arith))
  | inr e ↦ rw e.0 (drop_trimmed-Dropped c (trim_space target) inv)
]
