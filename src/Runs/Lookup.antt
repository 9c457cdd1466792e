-- ===== src/Runs/Lookup.antt =====
-- FindLiveRunningRunByPaneTarget of cli/internal/projectstate/run_store.go.
use shellman.Base.{
  ◌≤◌, ◌≡◌, ◌⊎◌, inl, inr, refl, sym, subst, Bool, true, false, ◌&&◌, ◌||◌, List, [], ◌∷◌, Option,
  none, some, arith, ltb, if◌then◌else◌, Text, codes, text_eq, text_eq_iff, All, Bool-cases,
}
use shellman.Runs.Tables.{TaskRun, RunBinding, Db, run_status_running, binding_status_live}

-- The `JOIN` and `WHERE` of the query.
unfoldable pub is_live_running_on : Text → TaskRun → RunBinding → Bool
is_live_running_on pane_target r b =
    text_eq b.run_id r.run_id
    && text_eq b.binding_status binding_status_live
    && text_eq r.run_status run_status_running
    && (text_eq b.pane_target pane_target || text_eq b.pane_id pane_target)

unfoldable pub is_bound : (TaskRun → RunBinding → Bool) → TaskRun → List RunBinding → Bool
is_bound p r [] = false
is_bound p r (b ∷ bs) = p r b || is_bound p r bs

later_of : TaskRun → Option TaskRun → TaskRun
later_of r none = r
later_of r (some s) = if ltb r.updated_at s.updated_at then s else r

-- `ORDER BY tr.updated_at DESC LIMIT 1`; of rows with the same time, the first one is taken here.
unfoldable pub latest_run :
    (TaskRun → RunBinding → Bool) → List TaskRun → List RunBinding → Option TaskRun
unfolding is_bound later_of
latest_run p [] bs = none
latest_run p (r ∷ rs) bs =
    let rest = latest_run p rs bs in if is_bound p r bs then some (later_of r rest) else rest

unfoldable pub find_live_running_run_by_pane_target : Db → Text → Option TaskRun
unfolding latest_run is_live_running_on
find_live_running_run_by_pane_target db pane_target =
    latest_run (is_live_running_on pane_target) db.task_runs db.run_bindings

-- Some element has the property.
abbrev pub Any : {A : Type 0} → (A → Type 0) → List A → Type 0
Any P [] = ⊥
Any P (x ∷ xs) = P x ⊎ Any P xs

-- No run is bound, or the found one is and no other bound run was updated later.
unfoldable pub Latest :
    (TaskRun → RunBinding → Bool) → List TaskRun → List RunBinding → Option TaskRun → Type 0
Latest p rs bs none = All (λ r. All (λ b. p r b ≡ false) bs) rs
Latest p rs bs (some found) =
    Any (λ r. (r ≡ found) × Any (λ b. p r b ≡ true) bs) rs
    × All (λ r. All (λ b. (p r b ≡ false) ⊎ (r.updated_at ≤ found.updated_at)) bs) rs

unbound :
    (p : TaskRun → RunBinding → Bool) (r : TaskRun) (bs : List RunBinding)
    → is_bound p r bs ≡ false
    → All (λ b. p r b ≡ false) bs
unfolding is_bound
unbound p r [] h = tt
unbound p r (b ∷ bs) h = (ground (arith, h), unbound p r bs (ground (arith, h)))

is_bound-Any :
    (p : TaskRun → RunBinding → Bool) (r : TaskRun) (bs : List RunBinding)
    → is_bound p r bs ≡ true
    → Any (λ b. p r b ≡ true) bs
unfolding is_bound
is_bound-Any p r [] h = cc
is_bound-Any p r (b ∷ bs) h = elim (Bool-cases (p r b)) [
  | inl y ↦ inl y
  | inr n ↦ inr (is_bound-Any p r bs (ground (arith, h, n)))
]

All-weaken :
    {A : Type 0} (P Q : A → Type 0) (xs : List A) → ((x : A) → P x → Q x) → All P xs → All Q xs
All-weaken P Q [] f a = tt
All-weaken P Q (x ∷ xs) f a = (f x a.0, All-weaken P Q xs f a.1)

All-always : {A : Type 0} (P : A → Type 0) (xs : List A) → ((x : A) → P x) → All P xs
All-always P [] f = tt
All-always P (x ∷ xs) f = (f x, All-always P xs f)

later_of-true : (r s : TaskRun) → ltb r.updated_at s.updated_at ≡ true → later_of r (some s) ≡ s
unfolding later_of
later_of-true r s h = rw h refl

later_of-false : (r s : TaskRun) → ltb r.updated_at s.updated_at ≡ false → later_of r (some s) ≡ r
unfolding later_of
later_of-false r s h = rw h refl

later_of-Latest :
    (p : TaskRun → RunBinding → Bool) (r : TaskRun) (rs : List TaskRun) (bs : List RunBinding)
    (rest : Option TaskRun)
    → is_bound p r bs ≡ true
    → Latest p rs bs rest
    → Latest p (r ∷ rs) bs (some (later_of r rest))
unfolding Latest later_of
later_of-Latest p r rs bs none h l = (
  inl (refl, is_bound-Any p r bs h),
  (
    All-always (λ b. (p r b ≡ false) ⊎ (r.updated_at ≤ r.updated_at)) bs (λ b. inr (omega arith)),
    All-weaken (λ x. All (λ b. p x b ≡ false) bs)
        (λ x. All (λ b. (p x b ≡ false) ⊎ (x.updated_at ≤ r.updated_at)) bs) rs
        (λ x a.
          All-weaken (λ b. p x b ≡ false) (λ b. (p x b ≡ false) ⊎ (x.updated_at ≤ r.updated_at)) bs
            (λ b e. inl e) a)
        l,
  ),
)
later_of-Latest p r rs bs (some s) h l = elim (Bool-cases (ltb r.updated_at s.updated_at)) [
  | inl y ↦
      subst (λ t. Latest p (r ∷ rs) bs (some t)) (sym (later_of-true r s y))
        (
          inr l.0,
          (
            All-always (λ b. (p r b ≡ false) ⊎ (r.updated_at ≤ s.updated_at)) bs
                (λ b. inr (ground (arith, y))),
            l.1,
          ),
        )
  | inr n ↦
      subst (λ t. Latest p (r ∷ rs) bs (some t)) (sym (later_of-false r s n))
        (
          inl (refl, is_bound-Any p r bs h),
          (
            All-always (λ b. (p r b ≡ false) ⊎ (r.updated_at ≤ r.updated_at)) bs
                (λ b. inr (omega arith)),
            All-weaken (λ x. All (λ b. (p x b ≡ false) ⊎ (x.updated_at ≤ s.updated_at)) bs)
                (λ x. All (λ b. (p x b ≡ false) ⊎ (x.updated_at ≤ r.updated_at)) bs) rs
                (λ x a.
                  All-weaken (λ b. (p x b ≡ false) ⊎ (x.updated_at ≤ s.updated_at))
                    (λ b. (p x b ≡ false) ⊎ (x.updated_at ≤ r.updated_at)) bs
                    (λ b e. elim e [ inl u ↦ inl u | inr v ↦ inr (ground (arith, n, v)) ]) a)
                l.1,
          ),
        )
]

skip-Latest :
    (p : TaskRun → RunBinding → Bool) (r : TaskRun) (rs : List TaskRun) (bs : List RunBinding)
    (rest : Option TaskRun)
    → is_bound p r bs ≡ false
    → Latest p rs bs rest
    → Latest p (r ∷ rs) bs rest
unfolding Latest
skip-Latest p r rs bs none h l = (unbound p r bs h, l)
skip-Latest p r rs bs (some s) h l = (
  inr l.0,
  (
    All-weaken (λ b. p r b ≡ false) (λ b. (p r b ≡ false) ⊎ (r.updated_at ≤ s.updated_at)) bs
        (λ b e. inl e) (unbound p r bs h),
    l.1,
  ),
)

latest_run-true :
    (p : TaskRun → RunBinding → Bool) (r : TaskRun) (rs : List TaskRun) (bs : List RunBinding)
    → is_bound p r bs ≡ true
    → latest_run p (r ∷ rs) bs ≡ some (later_of r (latest_run p rs bs))
unfolding latest_run
latest_run-true p r rs bs h = rw h refl

latest_run-false :
    (p : TaskRun → RunBinding → Bool) (r : TaskRun) (rs : List TaskRun) (bs : List RunBinding)
    → is_bound p r bs ≡ false
    → latest_run p (r ∷ rs) bs ≡ latest_run p rs bs
unfolding latest_run
latest_run-false p r rs bs h = rw h refl

latest_run-Latest :
    (p : TaskRun → RunBinding → Bool) (rs : List TaskRun) (bs : List RunBinding)
    → Latest p rs bs (latest_run p rs bs)
unfolding latest_run Latest
latest_run-Latest p [] bs = tt
latest_run-Latest p (r ∷ rs) bs = elim (Bool-cases (is_bound p r bs)) [
  | inl y ↦
      subst (Latest p (r ∷ rs) bs) (sym (latest_run-true p r rs bs y))
        (later_of-Latest p r rs bs (latest_run p rs bs) y (latest_run-Latest p rs bs))
  | inr n ↦
      subst (Latest p (r ∷ rs) bs) (sym (latest_run-false p r rs bs n))
        (skip-Latest p r rs bs (latest_run p rs bs) n (latest_run-Latest p rs bs))
]

-- A running run with a live binding of it that names the pane.
pub record IsLiveOn (pane : Text) (r : TaskRun) (b : RunBinding) : Type 0 where
  pub of_run : b.run_id ≡ r.run_id
  pub live : b.binding_status ≡ codes "live"
  pub running : r.run_status ≡ codes "running"
  pub named : (b.pane_target ≡ pane) ⊎ (b.pane_id ≡ pane)

is_live_running_on-IsLiveOn :
    (pane : Text) (r : TaskRun) (b : RunBinding)
    → is_live_running_on pane r b ≡ true
    → IsLiveOn pane r b
unfolding is_live_running_on
is_live_running_on-IsLiveOn pane r b h = record {
  of_run = (text_eq_iff b.run_id r.run_id).0 (ground (arith, h));
  live = (text_eq_iff b.binding_status (codes "live")).0 (ground (arith, h));
  running = (text_eq_iff r.run_status (codes "running")).0 (ground (arith, h));
  named = elim (Bool-cases (text_eq b.pane_target pane)) [
    | inl y ↦ inl ((text_eq_iff b.pane_target pane).0 y)
    | inr n ↦ inr ((text_eq_iff b.pane_id pane).0 (ground (arith, h, n)))
  ];
}

not_live-IsLiveOn :
    (pane : Text) (r : TaskRun) (b : RunBinding)
    → is_live_running_on pane r b ≡ false
    → IsLiveOn pane r b
    → ⊥
unfolding is_live_running_on
not_live-IsLiveOn pane r b h l = ground (
  arith,
  h,
  (text_eq_iff b.run_id r.run_id).1 l.of_run,
  (text_eq_iff b.binding_status (codes "live")).1 l.live,
  (text_eq_iff r.run_status (codes "running")).1 l.running,
  l.named,
  text_eq_iff b.pane_target pane,
  text_eq_iff b.pane_id pane,
)

-- The latest of the live runs of a pane, or the absence of any.
unfoldable pub LatestOn : Text → List TaskRun → List RunBinding → Option TaskRun → Type 0
LatestOn pane rs bs none = All (λ r. All (λ b. IsLiveOn pane r b → ⊥) bs) rs
LatestOn pane rs bs (some found) =
    Any (λ r. (r ≡ found) × Any (IsLiveOn pane r) bs) rs
    × All (λ r. All (λ b. (IsLiveOn pane r b → ⊥) ⊎ (r.updated_at ≤ found.updated_at)) bs) rs

Any-weaken :
    {A : Type 0} (P Q : A → Type 0) (xs : List A) → ((x : A) → P x → Q x) → Any P xs → Any Q xs
Any-weaken P Q [] f a = absurd a
Any-weaken P Q (x ∷ xs) f (inl a) = inl (f x a)
Any-weaken P Q (x ∷ xs) f (inr a) = inr (Any-weaken P Q xs f a)

Latest-LatestOn :
    (pane : Text) (rs : List TaskRun) (bs : List RunBinding) (o : Option TaskRun)
    → Latest (is_live_running_on pane) rs bs o
    → LatestOn pane rs bs o
unfolding Latest LatestOn
Latest-LatestOn pane rs bs none h =
    All-weaken (λ r. All (λ b. is_live_running_on pane r b ≡ false) bs)
      (λ r. All (λ b. IsLiveOn pane r b → ⊥) bs) rs
      (λ r a.
        All-weaken (λ b. is_live_running_on pane r b ≡ false) (λ b. IsLiveOn pane r b → ⊥) bs
          (λ b e. not_live-IsLiveOn pane r b e) a)
      h
Latest-LatestOn pane rs bs (some found) h = (
  Any-weaken (λ r. (r ≡ found) × Any (λ b. is_live_running_on pane r b ≡ true) bs)
      (λ r. (r ≡ found) × Any (IsLiveOn pane r) bs) rs
      (λ r a. (
        a.0,
        Any-weaken (λ b. is_live_running_on pane r b ≡ true) (IsLiveOn pane r) bs
            (λ b e. is_live_running_on-IsLiveOn pane r b e) a.1,
      ))
      h.0,
  All-weaken
      (λ r. All (λ b. (is_live_running_on pane r b ≡ false) ⊎ (r.updated_at ≤ found.updated_at)) bs)
      (λ r. All (λ b. (IsLiveOn pane r b → ⊥) ⊎ (r.updated_at ≤ found.updated_at)) bs) rs
      (λ r a.
        All-weaken (λ b. (is_live_running_on pane r b ≡ false) ⊎ (r.updated_at ≤ found.updated_at))
          (λ b. (IsLiveOn pane r b → ⊥) ⊎ (r.updated_at ≤ found.updated_at)) bs
          (λ b e. elim e [ inl u ↦ inl (not_live-IsLiveOn pane r b u) | inr v ↦ inr v ]) a)
      h.1,
)

-- The run that is found for a pane has the status `running` and a binding with its id and the
-- status `live` whose target or pane id is the pane's, and no other such run was updated later; if
-- none is found, then there is no such run.
pub find_live_running_run_by_pane_target-LatestOn :
    (db : Db) (pane_target : Text)
    → LatestOn pane_target db.task_runs db.run_bindings
        (find_live_running_run_by_pane_target db pane_target)
unfolding find_live_running_run_by_pane_target
find_live_running_run_by_pane_target-LatestOn db pane_target =
    Latest-LatestOn pane_target db.task_runs db.run_bindings
      (latest_run (is_live_running_on pane_target) db.task_runs db.run_bindings)
      (latest_run-Latest (is_live_running_on pane_target) db.task_runs db.run_bindings)
