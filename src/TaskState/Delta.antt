-- ===== src/TaskState/Delta.antt =====
-- What the difference of two task trees says of each id.
use shellman.Base.{
  is_none, is_some, find, sort_by, insert_by, ◌≡◌, inl, inr, refl, sym, ap, ◌∙◌, subst, Bool, true,
  false, ◌&&◌, List, [], ◌∷◌, Option, none, some, arith, if◌then◌else◌, Text, text_eq, text_eq_iff,
  text_eq_refl, Bool-cases,
}
use shellman.TaskState.Tree.{
  TaskRecordRow, TaskNode, TaskTreeReparentDelta, TaskTreeDelta, task_row_to_task_node, put_row,
  task_rows_by_id, row_of, differs, has_task_row_content_changed, diff_row, diff_rows, removed_ids,
  text_lt, put_rows,
}

find-insert_by :
    {A : Type 0} (before : A → A → Bool) (q : A → Bool) (x : A) (xs : List A)
    → ((y : A) → q x ≡ true → q y ≡ true → before y x ≡ false)
    → find q (insert_by before x xs) ≡ (if q x then some x else find q xs)
unfolding find insert_by
find-insert_by before q x [] h = refl
find-insert_by before q x (y ∷ ys) h = ground (arith, find-insert_by before q x ys h, h y)

find-sort_by :
    {A : Type 0} (before : A → A → Bool) (q : A → Bool) (xs : List A)
    → ((x y : A) → q x ≡ true → q y ≡ true → before y x ≡ false)
    → find q (sort_by before xs) ≡ find q xs
unfolding find sort_by
find-sort_by before q [] h = refl
find-sort_by before q (x ∷ xs) h =
    ground (arith, find-sort_by before q xs h, find-insert_by before q x (sort_by before xs) (h x))

text_lt_irrefl : (s : Text) → text_lt s s ≡ false
unfolding text_lt
text_lt_irrefl [] = refl
text_lt_irrefl (c ∷ s) = ground (arith, text_lt_irrefl s)

-- The sorted list has the same entry for a key.
pub find-sorted :
    {A : Type 0} (key : A → Text) (id : Text) (xs : List A)
    → find (λ x. text_eq (key x) id) (sort_by (λ a b. text_lt (key a) (key b)) xs)
      ≡ find (λ x. text_eq (key x) id) xs
find-sorted key id xs =
    find-sort_by (λ a b. text_lt (key a) (key b)) (λ x. text_eq (key x) id) xs
      (λ x y p q.
        subst (λ k. text_lt (key y) k ≡ false)
          (((text_eq_iff (key y) id).0 q) ∙ sym ((text_eq_iff (key x) id).0 p))
          (text_lt_irrefl (key y)))

-- No two rows have the same id.
unfoldable pub HasDistinctIds : List TaskRecordRow → Type 0
HasDistinctIds [] = Unit
HasDistinctIds (r ∷ rs) = (row_of r.task_id rs ≡ none) × HasDistinctIds rs

row_of-put_row :
    (row : TaskRecordRow) (rs : List TaskRecordRow) (id : Text)
    → row_of id (put_row row rs) ≡ (if text_eq row.task_id id then some row else row_of id rs)
unfolding row_of put_row find
row_of-put_row row [] id = refl
row_of-put_row row (r ∷ rs) id = ground (
  arith,
  row_of-put_row row rs id,
  text_eq_iff r.task_id row.task_id,
  text_eq_iff row.task_id id,
  text_eq_iff r.task_id id,
)

put_row-HasDistinctIds :
    (row : TaskRecordRow) (rs : List TaskRecordRow)
    → HasDistinctIds rs
    → HasDistinctIds (put_row row rs)
unfolding HasDistinctIds put_row row_of find
put_row-HasDistinctIds row [] d = (refl, tt)
put_row-HasDistinctIds row (r ∷ rs) d = elim (Bool-cases (text_eq r.task_id row.task_id)) [
  | inl y ↦
      rw y (subst (λ k. row_of k rs ≡ none) ((text_eq_iff r.task_id row.task_id).0 y) d.0, d.1)
  | inr n ↦ rw n (
    ground (
      arith,
      d.0,
      row_of-put_row row rs r.task_id,
      text_eq_iff row.task_id r.task_id,
      text_eq_iff r.task_id row.task_id,
    ),
    put_row-HasDistinctIds row rs d.1,
  )
]

put_rows-HasDistinctIds :
    (out rows : List TaskRecordRow) → HasDistinctIds out → HasDistinctIds (put_rows out rows)
unfolding put_rows
put_rows-HasDistinctIds out [] d = d
put_rows-HasDistinctIds out (row ∷ rows) d =
    put_rows-HasDistinctIds (put_row row out) rows (put_row-HasDistinctIds row out d)

pub task_rows_by_id-HasDistinctIds :
    (rows : List TaskRecordRow) → HasDistinctIds (task_rows_by_id rows)
unfolding task_rows_by_id HasDistinctIds
task_rows_by_id-HasDistinctIds rows = put_rows-HasDistinctIds [] rows tt

-- The row of an id, by the last one of the list.
unfoldable pub last_row : Text → List TaskRecordRow → Option TaskRecordRow
last_row id [] = none
last_row id (r ∷ rs) = elim (last_row id rs) as (λ _. Option TaskRecordRow) [
  | some later ↦ some later
  | none ↦ if text_eq r.task_id id then some r else none
]

unfoldable pub row_node : Option TaskRecordRow → Option TaskNode
row_node none = none
row_node (some r) = some (task_row_to_task_node r)

unfoldable pub added_node : Option TaskRecordRow → Option TaskRecordRow → Option TaskNode
unfolding row_node
added_node none new = row_node new
added_node (some prev) new = none

unfoldable pub updated_node : Option TaskRecordRow → Option TaskRecordRow → Option TaskNode
updated_node (some prev) (some row) =
    if has_task_row_content_changed prev row then some (task_row_to_task_node row) else none
updated_node _ _ = none

unfoldable pub reparented_node :
    Option TaskRecordRow → Option TaskRecordRow → Option TaskTreeReparentDelta
reparented_node (some prev) (some row) =
    if differs prev.parent_task_id row.parent_task_id
    then some (record {
      task_id = row.task_id;
      old_parent_task_id = prev.parent_task_id;
      new_parent_task_id = row.parent_task_id;
    })
    else none
reparented_node _ _ = none

abbrev pub nothing : Text → TaskTreeDelta
nothing project_id = record {
  project_id = project_id;
  added = [];
  removed = [];
  updated = [];
  reparented = [];
}

-- What the difference says of an id, by its rows before and after.
abbrev pub Says : Text → TaskTreeDelta → Option TaskRecordRow → Option TaskRecordRow → Type 0
Says id d old new =
    (find (λ n. text_eq n.task_id id) d.added ≡ added_node old new)
    × (find (λ n. text_eq n.task_id id) d.updated ≡ updated_node old new)
    × (find (λ n. text_eq n.task_id id) d.reparented ≡ reparented_node old new)

diff_row-other :
    (o old new : Option TaskRecordRow) (r : TaskRecordRow) (delta : TaskTreeDelta) (id : Text)
    → text_eq r.task_id id ≡ false
    → Says id delta old new
    → Says id (diff_row o r delta) old new
unfolding diff_row find task_row_to_task_node
diff_row-other none old new r delta id n s = (rw n s.0, s.1, s.2)
diff_row-other (some prev) old new r delta id n s = (s.0, ground (arith, s.1), ground (arith, s.2))

diff_row-own :
    (o : Option TaskRecordRow) (r : TaskRecordRow) (delta : TaskTreeDelta)
    → Says r.task_id delta o none
    → Says r.task_id (diff_row o r delta) o (some r)
unfolding diff_row find task_row_to_task_node added_node row_node updated_node reparented_node
diff_row-own none r delta s = (rw (text_eq_refl r.task_id) refl, s.1, s.2)
diff_row-own (some prev) r delta s =
    (s.0, ground (arith, s.1, text_eq_refl r.task_id), ground (arith, s.2, text_eq_refl r.task_id))

Says-nothing :
    (id project_id : Text) (o : Option TaskRecordRow) → Says id (nothing project_id) o none
unfolding find added_node row_node updated_node reparented_node
Says-nothing id project_id none = (refl, refl, refl)
Says-nothing id project_id (some prev) = (refl, refl, refl)

pub diff_rows-Says :
    (old new : List TaskRecordRow) (project_id id : Text)
    → HasDistinctIds new
    → Says id (diff_rows old new (nothing project_id)) (row_of id old) (row_of id new)
unfolding diff_rows find HasDistinctIds row_of
diff_rows-Says old [] project_id id d = Says-nothing id project_id (row_of id old)
diff_rows-Says old (r ∷ rs) project_id id d = elim (Bool-cases (text_eq r.task_id id)) [
  | inl y ↦ rw y (
      subst
        (λ k.
          Says k (diff_row (row_of r.task_id old) r (diff_rows old rs (nothing project_id)))
            (row_of k old) (some r))
        ((text_eq_iff r.task_id id).0 y)
        (diff_row-own (row_of r.task_id old) r (diff_rows old rs (nothing project_id)) (
          subst
            (λ o. Says r.task_id (diff_rows old rs (nothing project_id)) (row_of r.task_id old) o)
            d.0 (diff_rows-Says old rs project_id r.task_id d.1))))
  | inr n ↦ rw n (
      diff_row-other (row_of r.task_id old) (row_of id old) (row_of id rs) r
        (diff_rows old rs (nothing project_id)) id n (diff_rows-Says old rs project_id id d.1))
]

pub removed_ids-found :
    (old new : List TaskRecordRow) (id : Text)
    → is_some (find (λ k. text_eq k id) (removed_ids new old))
      ≡ (is_some (row_of id old) && is_none (row_of id new))
unfolding removed_ids row_of find
removed_ids-found [] new id = refl
removed_ids-found (r ∷ rs) new id = elim (Bool-cases (text_eq r.task_id id)) [
  | inl y ↦ ground (
    arith,
    removed_ids-found rs new id,
    y,
    ap (λ k. row_of k new) ((text_eq_iff r.task_id id).0 y),
  )
  | inr n ↦ ground (arith, removed_ids-found rs new id, n)
]

row_of-put_rows :
    (out rows : List TaskRecordRow) (id : Text)
    → row_of id (put_rows out rows) ≡ elim (last_row id rows) as (λ _. Option TaskRecordRow) [
      | some row ↦ some row
      | none ↦ row_of id out
    ]
unfolding put_rows last_row
row_of-put_rows out [] id = refl
row_of-put_rows out (r ∷ rs) id =
    ground (arith, row_of-put_rows (put_row r out) rs id, row_of-put_row r out id)

-- The last row of an id is the one that counts.
pub row_of-task_rows_by_id :
    (rows : List TaskRecordRow) (id : Text) → row_of id (task_rows_by_id rows) ≡ last_row id rows
unfolding task_rows_by_id row_of find
row_of-task_rows_by_id rows id = ground (arith, row_of-put_rows [] rows id)
