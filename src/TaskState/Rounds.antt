-- ===== src/TaskState/Rounds.antt =====
-- The rounds of diffProjectsTree, and a reader of the differences that they send.
use shellman.Base.{
  ℕ, find, ◌≡◌, inl, inr, refl, sym, subst, false, List, [], ◌∷◌, ◌++◌, Option, none, some, arith,
  if◌then◌else◌, Text, Bool-cases,
}
use shellman.Base.{Map}
use shellman.TaskState.Tree.{
  TaskRowsCache, is_cached, cached_rows, diff_project, has_changes, is_cons, TaskRecordRow,
  TaskNode, TaskTreeDelta, task_rows_by_id, row_of, diff_task_rows,
}
use shellman.TaskState.Delta.{row_of-task_rows_by_id, last_row}
use shellman.TaskState.Mirror.{Copies, apply_delta, or_node, reparent, diff_task_rows-Copies}

no_cons : {A : Type 0} (xs : List A) → is_cons xs ≡ false → xs ≡ []
unfolding is_cons
no_cons [] h = refl
no_cons (x ∷ xs) h = cc

unfoldable pub apply_some : Option TaskTreeDelta → Map TaskNode → Map TaskNode
apply_some none m = m
apply_some (some d) m = apply_delta d m

-- A difference that is not sent would change nothing.
apply_delta-no_changes :
    (d : TaskTreeDelta) (m : Map TaskNode) (id : Text)
    → has_changes d ≡ false
    → apply_delta d m id ≡ m id
unfolding has_changes apply_delta find or_node reparent
apply_delta-no_changes d m id h =
    rw
      (
        no_cons d.added (ground (arith, h)),
        no_cons d.removed (ground (arith, h)),
        no_cons d.updated (ground (arith, h)),
        no_cons d.reparented (ground (arith, h)),
      )
      refl

apply_some-Copies :
    (d : TaskTreeDelta) (m : Map TaskNode) (id : Text) (r : Option TaskRecordRow)
    → Copies (apply_delta d m id) r
    → Copies (apply_some (if has_changes d then some d else none) m id) r
unfolding apply_some
apply_some-Copies d m id r c = elim (Bool-cases (has_changes d)) [
  | inl y ↦ rw y c
  | inr n ↦ rw n (subst (λ k. Copies k r) (apply_delta-no_changes d m id n) c)
]

-- The rounds of a project: what the store answers in each, the reader and the cache.
unfoldable pub follow :
    Text
    → Map TaskNode
    → Option TaskRowsCache
    → List (ℕ × List TaskRecordRow)
    → Map TaskNode × Option TaskRowsCache
unfolding apply_some
follow project_id m cache [] = (m, cache)
follow project_id m cache (r ∷ later) =
    let (delta, after) = diff_project project_id cache r.0 r.1 in
    follow project_id (apply_some delta m) after later

InStep : Map TaskNode → Option TaskRowsCache → Type 0
InStep m cache = (id : Text) → Copies (m id) (row_of id (cached_rows cache))

nothing_known : InStep (λ _. none) none
unfolding InStep Copies row_of find cached_rows
nothing_known id = tt

diff_project-InStep :
    (project_id : Text) (m : Map TaskNode) (cache : Option TaskRowsCache) (newest : ℕ)
    (rows : List TaskRecordRow)
    → InStep m cache
    → let (delta, after) = diff_project project_id cache newest rows in
      InStep (apply_some delta m) after
unfolding InStep diff_project cached_rows
diff_project-InStep project_id m cache newest rows c id =
    elim (Bool-cases (is_cached cache newest)) [
      | inl y ↦ rw (diff_project, y) (unfold apply_some in c id)
      | inr n ↦
          rw (diff_project, n)
            (apply_some-Copies (diff_task_rows project_id (cached_rows cache) rows) m id
              (row_of id (task_rows_by_id rows))
              (diff_task_rows-Copies m (cached_rows cache) rows project_id id (c id)))
    ]

follow-InStep :
    (project_id : Text) (m : Map TaskNode) (cache : Option TaskRowsCache)
    (rounds : List (ℕ × List TaskRecordRow))
    → InStep m cache
    → InStep (follow project_id m cache rounds).0 (follow project_id m cache rounds).1
unfolding follow
follow-InStep project_id m cache [] c = c
follow-InStep project_id m cache (r ∷ later) c =
    let o = diff_project project_id cache r.0 r.1 in
    follow-InStep project_id (apply_some o.0 m) o.1 later
      (diff_project-InStep project_id m cache r.0 r.1 c)

follow-snoc :
    (project_id : Text) (m : Map TaskNode) (cache : Option TaskRowsCache)
    (rounds : List (ℕ × List TaskRecordRow)) (r : ℕ × List TaskRecordRow)
    → follow project_id m cache (rounds ++ r ∷ [])
      ≡ follow project_id
          (follow project_id m cache rounds).0
          (follow project_id m cache rounds).1
          (r ∷ [])
unfolding follow
follow-snoc project_id m cache [] r = refl
follow-snoc project_id m cache (x ∷ rounds) r =
    let o = diff_project project_id cache x.0 x.1 in
    follow-snoc project_id (apply_some o.0 m) o.1 rounds r

-- A reader that starts without nodes and applies every difference that is sent has, after a round
-- in which the time of the last modification is not the cached one, a node just for the ids of the
-- rows listed then. The node of an id has the parent, title, command, status, description, flag,
-- checked mark and time of its last row, but for white space around the texts; its role, its marks
-- `flag_readed` and `archived`, its children and their count are zero, whatever the row has.
pub follow-Copies :
    (project_id : Text) (earlier : List (ℕ × List TaskRecordRow)) (newest : ℕ)
    (rows : List TaskRecordRow) (id : Text)
    → is_cached (follow project_id (λ _. none) none earlier).1 newest ≡ false
    → Copies
        ((follow project_id (λ _. none) none (earlier ++ (newest, rows) ∷ [])).0 id)
        (last_row id rows)
unfolding follow diff_project InStep
follow-Copies project_id earlier newest rows id fresh =
    let s = follow project_id (λ _. none) none earlier in
    let in_step : InStep s.0 s.1 =
      follow-InStep project_id (λ _. none) none earlier nothing_known in
    subst
      (λ r. Copies ((follow project_id (λ _. none) none (earlier ++ (newest, rows) ∷ [])).0 id) r)
      (row_of-task_rows_by_id rows id)
      (subst (λ f. Copies (f.0 id) (row_of id (task_rows_by_id rows)))
        (sym (follow-snoc project_id (λ _. none) none earlier (newest, rows)))
        (rw fresh (
          apply_some-Copies (diff_task_rows project_id (cached_rows s.1) rows) s.0 id
            (row_of id (task_rows_by_id rows))
            (diff_task_rows-Copies s.0 (cached_rows s.1) rows project_id id (in_step id)))))
