-- ===== src/Conn/Watch.antt =====
-- SelectAndWatch and DropWatch: the watch set is the watch order, without repetition, within the
-- limit, and only the oldest pane is given up.
use shellman.Base.{
  ℕ, suc, ◌+◌, ◌≤◌, ◌<◌, ◌≡◌, ◌≢◌, ◌⊎◌, inl, inr, refl, Bool, false, List, [], ◌∷◌, ◌++◌, arith,
  Text, text_eq, text_eq_iff, trim_space, trim_space_idem, length, length-append, mem, mem-append,
  IsDistinct, IsDistinct-snoc, Bool-cases, empty-cases, ◌==◌, All, if◌then◌else◌, dec_lt,
}
use shellman.Conn.{
  ConnActor, delete_key, add_key, remove_first, drop_oldest, with_watch, watch_trimmed,
  select_and_watch,
}

-- `watchSet` holds the panes of `watchOrder`, each of which stands there once and is a trimmed text
-- that is not empty.
pub record Inv (c : ConnActor) : Type 0 where
  pub same : (t : Text) → c.watch_set t ≡ mem t c.watch_order
  pub distinct : IsDistinct c.watch_order
  pub trimmed : All (λ t. (trim_space t ≡ t) × (t ≢ [])) c.watch_order

pub mem-remove_first_other :
    (target t : Text) (xs : List Text) → target ≢ t → mem t (remove_first target xs) ≡ mem t xs
unfolding remove_first mem
mem-remove_first_other target t [] h = refl
mem-remove_first_other target t (x ∷ xs) h = ground (
  arith,
  mem-remove_first_other target t xs h,
  text_eq_iff x target,
  text_eq_iff x t,
  text_eq_iff target t,
)

mem-remove_first_self :
    (target : Text) (xs : List Text) → IsDistinct xs → mem target (remove_first target xs) ≡ false
unfolding remove_first mem
mem-remove_first_self target [] d = refl
mem-remove_first_self target (x ∷ xs) d =
    ground (arith, mem-remove_first_self target xs d.1, text_eq_iff x target)

remove_first-IsDistinct :
    (target : Text) (xs : List Text) → IsDistinct xs → IsDistinct (remove_first target xs)
unfolding remove_first
remove_first-IsDistinct target [] d = tt
remove_first-IsDistinct target (x ∷ xs) d = ground (
  arith,
  remove_first-IsDistinct target xs d.1,
  mem-remove_first_other target x xs,
  text_eq_iff x target,
  text_eq_iff target x,
)

remove_first-absent :
    (target : Text) (xs : List Text) → mem target xs ≡ false → remove_first target xs ≡ xs
unfolding remove_first mem
remove_first-absent target [] h = refl
remove_first-absent target (x ∷ xs) h = ground (arith, remove_first-absent target xs)

length-remove_first :
    (target : Text) (xs : List Text)
    → length (remove_first target xs) + (if mem target xs then 1 else 0) ≡ length xs
unfolding remove_first mem
length-remove_first target [] = refl
length-remove_first target (x ∷ xs) = ground (arith, length-remove_first target xs)

abbrev IsTarget : Text → Type 0
IsTarget t = (trim_space t ≡ t) × (t ≢ [])

All-remove_first :
    (target : Text) (xs : List Text) → All IsTarget xs → All IsTarget (remove_first target xs)
unfolding remove_first
All-remove_first target [] a = tt
All-remove_first target (x ∷ xs) a = elim (Bool-cases (text_eq x target)) [
  | inl e ↦ rw e a.1
  | inr e ↦ rw e (a.0, All-remove_first target xs a.1)
]

All-snoc : (xs : List Text) (t : Text) → All IsTarget xs → IsTarget t → All IsTarget (xs ++ t ∷ [])
All-snoc [] t a h = (h, tt)
All-snoc (x ∷ xs) t a h = (a.0, All-snoc xs t a.1 h)

drop_oldest_fits :
    (limit : ℕ) (xs : List Text) (set : Text → Bool) (evicted : Text)
    → length xs ≤ limit
    → drop_oldest limit xs set evicted ≡ (xs, set, evicted)
unfolding drop_oldest
drop_oldest_fits limit [] set evicted h = refl
drop_oldest_fits limit (x ∷ xs) set evicted h = ground arith

-- What is left of `xs ++ target ∷ []`, of at most one entry more than the limit.
record Kept (limit : ℕ) (xs : List Text) (target : Text) (r : List Text × (Text → Bool) × Text)
    : Type 0 where
  same : (t : Text) → r.1 t ≡ mem t r.0
  distinct : IsDistinct r.0
  trimmed : All IsTarget r.0
  bounded : length r.0 ≤ limit
  order :
      ((r.2 ≡ []) × (r.0 ≡ xs ++ target ∷ []))
      ⊎ ((length xs ≡ limit) × (xs ++ target ∷ [] ≡ r.2 ∷ r.0))

module _ (limit : ℕ) (target : Text) (set : Text → Bool) where
  Kept-fits :
      (xs : List Text)
      → length (xs ++ target ∷ []) ≤ limit
      → ((t : Text) → set t ≡ mem t (xs ++ target ∷ []))
      → IsDistinct (xs ++ target ∷ [])
      → All IsTarget (xs ++ target ∷ [])
      → Kept limit xs target (drop_oldest limit (xs ++ target ∷ []) set [])
  Kept-fits xs h s d a =
      rw (drop_oldest_fits limit (xs ++ target ∷ []) set [] h)
        (record { same = s; distinct = d; trimmed = a; bounded = h; order = inl (refl, refl) })

  drop_one :
      (x : Text) (xs : List Text)
      → length (x ∷ xs) ≡ suc limit
      → drop_oldest limit (x ∷ xs) set [] ≡ (xs, delete_key x set, x)
  unfolding drop_oldest
  drop_one x xs h = ground (arith, drop_oldest_fits limit xs (delete_key x set) x)

  delete_key-mem :
      (x : Text) (xs : List Text)
      → ((t : Text) → set t ≡ mem t (x ∷ xs))
      → IsDistinct (x ∷ xs)
      → (t : Text) → delete_key x set t ≡ mem t xs
  unfolding delete_key mem
  delete_key-mem x xs s d t = ground (arith, s t, text_eq_iff x t)

  Kept-over :
      (x : Text) (xs : List Text)
      → length (x ∷ xs) ≡ limit
      → ((t : Text) → set t ≡ mem t (x ∷ xs ++ target ∷ []))
      → IsDistinct (x ∷ xs ++ target ∷ [])
      → All IsTarget (x ∷ xs ++ target ∷ [])
      → Kept limit (x ∷ xs) target (drop_oldest limit (x ∷ xs ++ target ∷ []) set [])
  Kept-over x xs h s d a =
      rw (drop_one x (xs ++ target ∷ []) (omega (arith, length-append xs (target ∷ [])))) (record {
        same = delete_key-mem x (xs ++ target ∷ []) s d;
        distinct = d.1;
        trimmed = a.1;
        bounded = omega (arith, length-append xs (target ∷ []));
        order = inr (h, refl);
      })

  drop_oldest-Kept :
      (xs : List Text)
      → 0 < limit
      → length xs ≤ limit
      → ((t : Text) → set t ≡ mem t (xs ++ target ∷ []))
      → IsDistinct (xs ++ target ∷ [])
      → All IsTarget (xs ++ target ∷ [])
      → Kept limit xs target (drop_oldest limit (xs ++ target ∷ []) set [])
  drop_oldest-Kept [] p h s d a = Kept-fits [] (omega arith) s d a
  drop_oldest-Kept (x ∷ xs) p h s d a = elim (dec_lt (length (x ∷ xs)) limit) [
    | yes less ↦ Kept-fits (x ∷ xs) (omega (arith, length-append xs (target ∷ []))) s d a
    | no full ↦ Kept-over x xs (omega arith) s d a
  ]

add_key-mem :
    (c : ConnActor) (target t : Text)
    → Inv c
    → add_key target c.watch_set t ≡ mem t (remove_first target c.watch_order ++ target ∷ [])
unfolding add_key mem
add_key-mem c target t inv = ground (
  arith,
  inv.same t,
  mem-append t (remove_first target c.watch_order) (target ∷ []),
  mem-remove_first_other target t c.watch_order,
  text_eq_iff target t,
)

moved_order :
    (c : ConnActor) (target : Text)
    → Inv c
    → (if c.watch_set target then remove_first target c.watch_order else c.watch_order)
      ≡ remove_first target c.watch_order
moved_order c target inv = ground (arith, inv.same target, remove_first-absent target c.watch_order)

-- What `SelectAndWatch` of a target that is not blank does: the target is selected and the newest
-- of the watched panes, the others keep their order, the limit holds, and a pane is given up only
-- if the limit was reached by others; then it is the oldest, and it alone.
pub record Watched (c : ConnActor) (target : Text) (limit : ℕ) (r : ConnActor × Text) : Type 0 where
  pub inv : Inv r.0
  pub selected : r.0.selected ≡ target
  pub bounded : length r.0.watch_order ≤ limit
  pub order :
      ((r.1 ≡ []) × (r.0.watch_order ≡ remove_first target c.watch_order ++ target ∷ []))
      ⊎ ((mem target c.watch_order ≡ false)
          × (length c.watch_order ≡ limit)
          × (c.watch_order ++ target ∷ [] ≡ r.1 ∷ r.0.watch_order))

module _ (c : ConnActor) (target : Text) (limit : ℕ) (inv : Inv c)
    (room : length c.watch_order ≤ limit) where
  watch-Kept :
      0 < limit
      → IsTarget target
      → Kept limit (remove_first target c.watch_order) target (
          drop_oldest limit
            (remove_first target c.watch_order ++ target ∷ [])
            (add_key target c.watch_set)
            [])
  watch-Kept p h =
      drop_oldest-Kept limit target (add_key target c.watch_set) (remove_first target c.watch_order)
        p (omega (arith, length-remove_first target c.watch_order))
        (λ t. add_key-mem c target t inv)
        (IsDistinct-snoc (remove_first target c.watch_order) target
          (remove_first-IsDistinct target c.watch_order inv.distinct)
          (mem-remove_first_self target c.watch_order inv.distinct))
        (All-snoc (remove_first target c.watch_order) target
          (All-remove_first target c.watch_order inv.trimmed) h)

  Kept-Watched :
      (r : List Text × (Text → Bool) × Text)
      → Kept limit (remove_first target c.watch_order) target r
      → Watched c target limit (with_watch c target r)
  unfolding with_watch
  Kept-Watched r k = record {
    inv = record { same = k.same; distinct = k.distinct; trimmed = k.trimmed };
    selected = refl;
    bounded = k.bounded;
    order = ground (
      arith,
      k.order,
      length-remove_first target c.watch_order,
      remove_first-absent target c.watch_order,
    );
  }

  watch_trimmed-Watched :
      0 < limit → IsTarget target → Watched c target limit (watch_trimmed c target limit)
  unfolding watch_trimmed
  watch_trimmed-Watched p h = rw (moved_order c target inv) (Kept-Watched _ (watch-Kept p h))

-- `SelectAndWatch` of a target that is not blank, on an actor that watches no more panes than the
-- limit (a limit of 0 counts as 1): the target, trimmed, is watched as `Watched` says, and the
-- actor keeps its invariant.
pub select_and_watch-Watched :
    (c : ConnActor) (target : Text) (limit : ℕ)
    → Inv c
    → length c.watch_order ≤ (if limit == 0 then 1 else limit)
    → trim_space target ≢ []
    → Watched c
        (trim_space target)
        (if limit == 0 then 1 else limit)
        (select_and_watch c target limit)
unfolding select_and_watch
select_and_watch-Watched c target limit inv room h = elim (empty-cases (trim_space target)) [
  | inl e ↦ absurd (h (ground arith))
  | inr e ↦ rw e.0 (
      watch_trimmed-Watched c (trim_space target) (if limit == 0 then 1 else limit) inv room
        (ground arith) (trim_space_idem target, e.1))
]
