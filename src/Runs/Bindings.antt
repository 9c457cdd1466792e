-- ===== src/Runs/Bindings.antt =====
-- What a restart of the tmux server does to the runs and their bindings.
use mathlib.Core.Path.{fun_ext}
use shellman.Base.{
  ap, find, ℕ, ◌≡◌, ◌≢◌, inl, inr, refl, ◌∙◌, Bool, true, false, ◌&&◌, ◌||◌, List, [], ◌∷◌, ◌++◌,
  Option, none, some, arith, if◌then◌else◌, Text, codes, text_eq, text_eq_iff, text_eq_refl,
  is_empty, empty-cases, nil_of_empty, trim_space, Bool-cases,
}
use shellman.Runs.Tables.{
  TaskRun, RunBinding, Db, update_where, get_run, get_binding_by_run_id, is_live_of, is_stale_of,
  any_run, make_stale, needs_rebind, mark_bindings_stale_by_server, get_live_binding_by_run_id,
  set_run_status, append_run_event, run_status_needs_rebind,
}

unfoldable pub map_option : {A : Type 0} → (A → A) → Option A → Option A
map_option f none = none
map_option f (some x) = some (f x)

-- An update that keeps the key commutes with the search by the key.
pub find-update_where :
    {A : Type 0} (q p : A → Bool) (f : A → A) (xs : List A)
    → ((x : A) → q (f x) ≡ q x)
    → find q (update_where p f xs) ≡ map_option (λ x. if p x then f x else x) (find q xs)
unfolding find update_where map_option
find-update_where q p f [] h = refl
find-update_where q p f (x ∷ xs) h = ground (arith, find-update_where q p f xs h, h x)

stale_by_server :
    (db : Db) (server reason : Text) (now : ℕ) (run_id : Text)
    → let after = mark_bindings_stale_by_server db server reason now in
      (get_binding_by_run_id after run_id
        ≡ map_option
            (λ b. if is_live_of server b then make_stale reason now b else b)
            (get_binding_by_run_id db run_id))
      × (get_run after run_id
          ≡ map_option
              (λ r.
                if any_run (is_stale_of server) r.run_id after.run_bindings
                then needs_rebind now r
                else r)
              (get_run db run_id))
unfolding mark_bindings_stale_by_server get_binding_by_run_id get_run make_stale needs_rebind
stale_by_server db server reason now run_id = (
  find-update_where (λ b. text_eq b.run_id run_id) (is_live_of server) (make_stale reason now)
      db.run_bindings (λ b. refl),
  find-update_where (λ r. text_eq r.run_id run_id)
      (λ r.
        any_run (is_stale_of server) r.run_id
          (update_where (is_live_of server) (make_stale reason now) db.run_bindings))
      (needs_rebind now) db.task_runs (λ r. refl),
)

-- Whether the run has a binding of the server that is live or already stale.
unfoldable pub is_bound_to : Text → Text → List RunBinding → Bool
is_bound_to server run_id [] = false
is_bound_to server run_id (b ∷ bs) =
    (text_eq b.run_id run_id
      && text_eq b.server_instance_id server
      && (text_eq b.binding_status (codes "live") || text_eq b.binding_status (codes "stale")))
    || is_bound_to server run_id bs

any_run-is_bound_to :
    (server reason : Text) (now : ℕ) (run_id : Text) (bs : List RunBinding)
    → any_run
        (is_stale_of server)
        run_id
        (update_where (is_live_of server) (make_stale reason now) bs)
      ≡ is_bound_to server run_id bs
unfolding any_run update_where is_live_of is_stale_of make_stale is_bound_to
any_run-is_bound_to server reason now run_id [] = refl
any_run-is_bound_to server reason now run_id (b ∷ bs) =
    ground (arith, any_run-is_bound_to server reason now run_id bs, text_eq_refl (codes "stale"))

-- After the bindings of a server have been marked stale, for a reason and at a time: the binding of
-- a run has the status `stale`, the reason and the time, if it was live on the server, and is
-- unchanged otherwise; the run has the status `needs_rebind` and the time, whatever its status was,
-- if it had a live or a stale binding of the server before, and is unchanged otherwise.
pub mark_bindings_stale_by_server_lem :
    (db : Db) (server reason : Text) (now : ℕ) (run_id : Text)
    → let after = mark_bindings_stale_by_server db server reason now in
      (get_binding_by_run_id after run_id
        ≡ map_option
            (λ b.
              if text_eq b.server_instance_id server && text_eq b.binding_status (codes "live")
              then record b {
                binding_status = codes "stale";
                stale_reason = reason;
                updated_at = now;
              }
              else b)
            (get_binding_by_run_id db run_id))
      × (get_run after run_id
          ≡ map_option
              (λ r.
                if is_bound_to server r.run_id db.run_bindings
                then record r { run_status = codes "needs_rebind"; updated_at = now }
                else r)
              (get_run db run_id))
unfolding mark_bindings_stale_by_server make_stale needs_rebind is_live_of
mark_bindings_stale_by_server_lem db server reason now run_id =
    let e = stale_by_server db server reason now run_id in
    (
      e.0,
      e.1
          ∙ ap
              (λ (f : TaskRun → Bool).
                map_option
                  (λ r.
                    if f r
                    then record r { run_status = codes "needs_rebind"; updated_at = now }
                    else r)
                  (get_run db run_id))
              (fun_ext (λ r. any_run-is_bound_to server reason now r.run_id db.run_bindings)),
    )

any_run-find :
    (server reason : Text) (now : ℕ) (run_id : Text) (b : RunBinding) (bs : List RunBinding)
    → find (λ x. text_eq x.run_id run_id) bs ≡ some b
    → is_live_of server b ≡ true
    → any_run
        (is_stale_of server)
        run_id
        (update_where (is_live_of server) (make_stale reason now) bs)
      ≡ true
unfolding any_run update_where find is_live_of is_stale_of make_stale
any_run-find server reason now run_id b [] e h = cc
any_run-find server reason now run_id b (x ∷ bs) e h =
    ground (arith, any_run-find server reason now run_id b bs, text_eq_refl (codes "stale"))

found : {A : Type 0} (q : A → Bool) (xs : List A) (x : A) → find q xs ≡ some x → q x ≡ true
unfolding find
found q [] x e = cc
found q (y ∷ ys) x e = elim (Bool-cases (q y)) [
  | inl h ↦ ground (arith)
  | inr h ↦ found q ys x (ground arith)
]

pub own_key :
    (rs : List TaskRun) (run_id : Text) (r : TaskRun)
    → find (λ x. text_eq x.run_id run_id) rs ≡ some r
    → r.run_id ≡ run_id
own_key rs run_id r e =
    (text_eq_iff r.run_id run_id).0 (found (λ (x : TaskRun). text_eq x.run_id run_id) rs r e)

stale_after :
    (db : Db) (server reason : Text) (now : ℕ) (run_id : Text) (b : RunBinding)
    → get_binding_by_run_id db run_id ≡ some b
    → is_live_of server b ≡ true
    → any_run
        (is_stale_of server)
        run_id
        (mark_bindings_stale_by_server db server reason now).run_bindings
      ≡ true
unfolding get_binding_by_run_id mark_bindings_stale_by_server
stale_after db server reason now run_id b f live =
    any_run-find server reason now run_id b db.run_bindings f live

-- A run whose binding is live on the server is put to `needs_rebind`, whatever its status was.
pub mark_bindings_stale_by_server-run :
    (db : Db) (server reason : Text) (now : ℕ) (run_id : Text) (r : TaskRun) (b : RunBinding)
    → get_run db run_id ≡ some r
    → get_binding_by_run_id db run_id ≡ some b
    → is_live_of server b ≡ true
    → get_run (mark_bindings_stale_by_server db server reason now) run_id
      ≡ some (needs_rebind now r)
unfolding map_option needs_rebind
mark_bindings_stale_by_server-run db server reason now run_id r b e f live =
    let own : r.run_id ≡ run_id = own_key db.task_runs run_id r (unfold get_run in e) in
    let stale : any_run (is_stale_of server) r.run_id
          (mark_bindings_stale_by_server db server reason now).run_bindings
        ≡ true =
      rw own (stale_after db server reason now run_id b f live) in
    (stale_by_server db server reason now run_id).1 ∙ (rw (e, map_option, stale))

-- invalidateBindingIfServerChanged of cli/internal/localapi/routes_runs.go. `payload` is the JSON
-- of the two server ids.
unfoldable pub invalidate_binding :
    Db → Text → Text → (Text → Text → Text) → ℕ → Option RunBinding → Db × Bool
invalidate_binding db run_id current_server payload now none = (db, false)
invalidate_binding db run_id current_server payload now (some binding) =
    if is_empty (trim_space current_server) || text_eq binding.server_instance_id current_server
    then (db, false)
    else (
      append_run_event
          (set_run_status
            (mark_bindings_stale_by_server db binding.server_instance_id (codes "tmux_restarted")
              now)
            run_id run_status_needs_rebind now)
          run_id (codes "tmux_restarted") (payload binding.server_instance_id current_server) now,
      true,
    )

unfoldable pub invalidate_binding_if_server_changed :
    Db → Text → Text → (Text → Text → Text) → ℕ → Db × Bool
unfolding invalidate_binding
invalidate_binding_if_server_changed db run_id current_server payload now =
    invalidate_binding db run_id current_server payload now (get_live_binding_by_run_id db run_id)

find_both :
    (q p : RunBinding → Bool) (bs : List RunBinding) (b : RunBinding)
    → find q bs ≡ some b
    → p b ≡ true
    → find (λ x. q x && p x) bs ≡ some b
unfolding find
find_both q p [] b e h = cc
find_both q p (x ∷ bs) b e h = ground (arith, find_both q p bs b)

live_binding :
    (db : Db) (run_id : Text) (b : RunBinding)
    → get_binding_by_run_id db run_id ≡ some b
    → text_eq b.binding_status (codes "live") ≡ true
    → get_live_binding_by_run_id db run_id ≡ some b
unfolding get_binding_by_run_id get_live_binding_by_run_id
live_binding db run_id b e h =
    find_both (λ x. text_eq x.run_id run_id) (λ x. text_eq x.binding_status (codes "live"))
      db.run_bindings b e h

set_run_status-run :
    (db : Db) (run_id status : Text) (now : ℕ) (r : TaskRun)
    → get_run db run_id ≡ some r
    → get_run (set_run_status db run_id status now) run_id
      ≡ some (record r { run_status = status; updated_at = now })
unfolding set_run_status get_run map_option
set_run_status-run db run_id status now r e =
    find-update_where (λ x. text_eq x.run_id run_id) (λ x. text_eq x.run_id run_id)
      (λ x. record x { run_status = status; updated_at = now }) db.task_runs (λ x. refl)
    ∙ (rw (e, map_option, found (λ (x : TaskRun). text_eq x.run_id run_id) db.task_runs r e))

live_of_own :
    (b : RunBinding) → b.binding_status ≡ codes "live" → is_live_of b.server_instance_id b ≡ true
unfolding is_live_of
live_of_own b e =
    ground
      (arith, text_eq_refl b.server_instance_id, (text_eq_iff b.binding_status (codes "live")).1 e)

mark_bindings_stale_by_server-binding :
    (db : Db) (server reason : Text) (now : ℕ) (run_id : Text) (b : RunBinding)
    → get_binding_by_run_id db run_id ≡ some b
    → is_live_of server b ≡ true
    → get_binding_by_run_id (mark_bindings_stale_by_server db server reason now) run_id
      ≡ some (make_stale reason now b)
unfolding map_option
mark_bindings_stale_by_server-binding db server reason now run_id b f live =
    (stale_by_server db server reason now run_id).0 ∙ (rw (f, map_option, live))

-- A run whose live binding belongs to another server than the current one, which has a name that
-- is not blank: the binding becomes stale with the reason `tmux_restarted`, the run needs a rebind,
-- the event is appended, and the caller is told.
pub invalidate_binding_if_server_changed-restart :
    (db : Db) (run_id current_server : Text) (payload : Text → Text → Text) (now : ℕ) (r : TaskRun)
    (b : RunBinding)
    → get_run db run_id ≡ some r
    → get_binding_by_run_id db run_id ≡ some b
    → b.binding_status ≡ codes "live"
    → b.server_instance_id ≢ current_server
    → trim_space current_server ≢ []
    → let (after, invalidated) =
        invalidate_binding_if_server_changed db run_id current_server payload now in
      (invalidated ≡ true)
      × (get_run after run_id
          ≡ some (record r { run_status = codes "needs_rebind"; updated_at = now }))
      × (get_binding_by_run_id after run_id
          ≡ some (record b {
            binding_status = codes "stale";
            stale_reason = codes "tmux_restarted";
            updated_at = now;
          }))
      × (after.run_events
          ≡ db.run_events
            ++ record {
              run_id = run_id;
              kind = codes "tmux_restarted";
              payload = payload b.server_instance_id current_server;
              created_at = now;
            }
              ∷ [])
unfolding invalidate_binding_if_server_changed invalidate_binding append_run_event set_run_status
    needs_rebind make_stale get_run get_binding_by_run_id mark_bindings_stale_by_server
invalidate_binding_if_server_changed-restart db run_id current_server payload now r b e f live other
      some_server =
    let l : get_live_binding_by_run_id db run_id ≡ some b =
      live_binding db run_id b f ((text_eq_iff b.binding_status (codes "live")).1 live) in
    let old : text_eq b.server_instance_id current_server ≡ false =
      elim (Bool-cases (text_eq b.server_instance_id current_server)) [
        | inl h ↦ ground (arith, (text_eq_iff b.server_instance_id current_server).0 h, other)
        | inr h ↦ h
      ] in
    let full : is_empty (trim_space current_server) ≡ false =
      elim (empty-cases (trim_space current_server)) [
        | inl h ↦ ground (arith, nil_of_empty (trim_space current_server) h, some_server)
        | inr h ↦ h.0
      ] in
    let live_of : is_live_of b.server_instance_id b ≡ true = live_of_own b live in
    let binding_after : get_binding_by_run_id
          (mark_bindings_stale_by_server db b.server_instance_id (codes "tmux_restarted") now)
          run_id
        ≡ some (make_stale (codes "tmux_restarted") now b) =
      mark_bindings_stale_by_server-binding db b.server_instance_id (codes "tmux_restarted") now
        run_id b f live_of in
    rw (l, full, old)
      (
        refl,
        set_run_status-run
            (mark_bindings_stale_by_server db b.server_instance_id (codes "tmux_restarted") now)
            run_id run_status_needs_rebind now (needs_rebind now r)
            (mark_bindings_stale_by_server-run db b.server_instance_id (codes "tmux_restarted") now
              run_id r b e f live_of),
        binding_after,
        refl,
      )
