-- ===== src/Registry/Watching.antt =====
-- A connection watches a pane just if the pane has it as a subscriber: subscribing.
use shellman.Base.{
  ℕ, ◌≤◌, ◌≡◌, ◌≢◌, inl, inr, refl, sym, ap, subst, ◌∙◌, Bool, true, false, not, ◌&&◌, [], arith,
  Text, text_eq, text_eq_iff, trim_space, trim_space_idem, length, mem, Bool-cases, empty-cases,
  if◌then◌else◌, Option, none, some, insert, is_empty,
}
use shellman.Conn.{ConnActor, select_and_watch, new_conn_actor}
use shellman.Conn.Watch as W
use shellman.Registry.{
  RegistryActor, conn_of, get_or_create_conn, get_or_create_pane, create_pane, finish_subscribe,
  or_new, subscribe_pane, unsubscribe_pane, subscribe, active_pane_watch_limit,
}
use shellman.Registry.Views.{
  watch_set_of, has_subscriber, watches, not_empty, watch_after, has_subscriber-subscribe_pane,
  has_subscriber-unsubscribe_pane,
}
use shellman.Registry.Creating.{Created, create_pane-Created}

abbrev pub WellFormed : ConnActor → Type 0
WellFormed c = W.Inv c × (length c.watch_order ≤ active_pane_watch_limit)

-- The connections are well-formed and within the limit, and each watches just the panes that have
-- it as a subscriber.
pub record Inv (r : RegistryActor) : Type 0 where
  pub configured : r.configured ≡ true
  pub conns : (conn_id : Text) (c : ConnActor) → r.conns conn_id ≡ some c → WellFormed c
  pub agree : (target conn_id : Text) → has_subscriber r target conn_id ≡ watches r conn_id target

or_new_ok :
    (conn_id : Text) (o : Option ConnActor)
    → ((c : ConnActor) → o ≡ some c → WellFormed c)
    → WellFormed (or_new conn_id o)
unfolding or_new
or_new_ok conn_id none h = (
  record {
    same = λ t. unfold mem new_conn_actor in refl;
    distinct = unfold new_conn_actor in tt;
    trimmed = unfold new_conn_actor in tt;
  },
  unfold new_conn_actor in omega arith,
)
or_new_ok conn_id (some c) h = h c refl

or_new_set :
    (conn_id : Text) (o : Option ConnActor) (t : Text)
    → (or_new conn_id o).watch_set t ≡ watch_set_of o t
unfolding or_new watch_set_of new_conn_actor
or_new_set conn_id none t = refl
or_new_set conn_id (some c) t = refl

conn_of_ok : (r : RegistryActor) (conn_id : Text) → Inv r → WellFormed (conn_of r conn_id)
unfolding conn_of
conn_of_ok r conn_id inv = or_new_ok conn_id (r.conns conn_id) (inv.conns conn_id)

conn_of_set :
    (r : RegistryActor) (conn_id t : Text) → (conn_of r conn_id).watch_set t ≡ watches r conn_id t
unfolding conn_of watches
conn_of_set r conn_id t = or_new_set conn_id (r.conns conn_id) t

pick_ok :
    (b : Bool) (o : Option ConnActor) (c d : ConnActor)
    → (if b then some c else o) ≡ some d
    → WellFormed c
    → (o ≡ some d → WellFormed d)
    → WellFormed d
pick_ok true o c d e ok h = let same : c ≡ d = cc in subst WellFormed same ok
pick_ok false o c d e ok h = h e

pick_set :
    (b : Bool) (o : Option ConnActor) (c : ConnActor) (t : Text) (old : Bool)
    → old ≡ watch_set_of o t
    → (if b then c.watch_set t else old) ≡ watch_set_of (if b then some c else o) t
unfolding watch_set_of
pick_set true o c t old e = refl
pick_set false o c t old e = e

-- A registry after a connection was put, and the subscribers were changed accordingly.
put_conn :
    (r q : RegistryActor) (conn_id : Text) (c : ConnActor)
    → Inv r
    → q.configured ≡ true
    → q.conns ≡ insert conn_id c r.conns
    → WellFormed c
    → ((t k : Text)
        → has_subscriber q t k
          ≡ (if text_eq conn_id k then c.watch_set t else has_subscriber r t k))
    → Inv q
unfolding insert
put_conn r q conn_id c inv e n ok s = record {
  configured = e;
  conns = λ k d h.
      pick_ok (text_eq conn_id k) (r.conns k) c d (sym (ap (λ m. m k) n) ∙ h) ok (inv.conns k d);
  agree = λ t k.
      s t k
      ∙ pick_set (text_eq conn_id k) (r.conns k) c t (has_subscriber r t k)
          (inv.agree t k ∙ unfold watches in refl)
      ∙ unfold watches in ap (λ m. watch_set_of (m k) t) (sym n);
}

same_conn :
    (r : RegistryActor) (conn_id : Text)
    → Inv r
    → (t k : Text)
    → has_subscriber r t k
      ≡ (if text_eq conn_id k then (conn_of r conn_id).watch_set t else has_subscriber r t k)
same_conn r conn_id inv t k =
    ground (arith, text_eq_iff conn_id k, conn_of_set r conn_id t, inv.agree t conn_id)

pub get_or_create_conn-Inv :
    (r : RegistryActor) (conn_id : Text) → Inv r → Inv (get_or_create_conn r conn_id)
unfolding get_or_create_conn has_subscriber
get_or_create_conn-Inv r conn_id inv = elim (Bool-cases (is_empty (trim_space conn_id))) [
  | inl e ↦ rw e inv
  | inr e ↦ rw e (
      put_conn r _ (trim_space conn_id) (conn_of r (trim_space conn_id)) inv inv.configured refl
        (conn_of_ok r (trim_space conn_id) inv) (same_conn r (trim_space conn_id) inv))
]

get_or_create_pane-Created :
    (r : RegistryActor) (target : Text) (now : ℕ)
    → r.configured ≡ true
    → trim_space target ≡ target
    → target ≢ []
    → Created r target (get_or_create_pane r target now)
unfolding get_or_create_pane
get_or_create_pane-Created r target now e h p =
    rw (h, not_empty target p) (create_pane-Created r target now e)

-- The end of `Subscribe`: the subscriber of the pane that was given up is taken away.
record Pruned (q : RegistryActor) (gone : Bool) (evicted conn_id : Text) (p : RegistryActor)
    : Type 0 where
  conns : p.conns ≡ q.conns
  configured : p.configured ≡ q.configured
  pub subscribers :
      (t k : Text)
      → has_subscriber p t k
        ≡ (if gone && text_eq evicted t && text_eq conn_id k then false else has_subscriber q t k)

prune-Pruned :
    (q : RegistryActor) (gone : Bool) (evicted conn_id : Text)
    → Pruned q gone evicted conn_id (if gone then unsubscribe_pane q evicted conn_id else q)
prune-Pruned q true evicted conn_id = record {
  conns = unfold unsubscribe_pane in refl;
  configured = unfold unsubscribe_pane in refl;
  subscribers = λ t k. has_subscriber-unsubscribe_pane q evicted conn_id t k;
}
prune-Pruned q false evicted conn_id = record {
  conns = refl;
  configured = refl;
  subscribers = λ t k. refl;
}

module _ (r : RegistryActor) (conn_id target : Text) (w : ConnActor × Text) (now : ℕ) (inv : Inv r)
    (h : trim_space target ≡ target) (p : target ≢ [])
    (watched : W.Watched (conn_of r conn_id) target active_pane_watch_limit w) where
  abbrev with_conn : RegistryActor
  with_conn = record r { conns = insert conn_id w.0 r.conns }

  abbrev with_pane : RegistryActor
  with_pane = get_or_create_pane with_conn target now

  abbrev is_gone : Bool
  is_gone = not (is_empty w.1) && not (text_eq w.1 target)

  pane_made : Created with_conn target with_pane
  pane_made = get_or_create_pane-Created with_conn target now inv.configured h p

  with_conn_subscribers : (t k : Text) → has_subscriber with_conn t k ≡ has_subscriber r t k
  unfolding has_subscriber
  with_conn_subscribers t k = refl

  subscribers_after :
      (q : RegistryActor)
      → Pruned (subscribe_pane with_pane target conn_id) is_gone w.1 conn_id q
      → (t k : Text)
      → has_subscriber q t k ≡ (if text_eq conn_id k then w.0.watch_set t else has_subscriber r t k)
  subscribers_after q pruned t k = ground (
    arith,
    pruned.subscribers t k,
    has_subscriber-subscribe_pane with_pane target conn_id t k pane_made.present,
    pane_made.subscribers t k,
    with_conn_subscribers t k,
    watch_after (conn_of r conn_id) target active_pane_watch_limit w (conn_of_ok r conn_id inv).0
        (omega arith) p watched t,
    conn_of_set r conn_id t,
    inv.agree t conn_id,
    text_eq_iff conn_id k,
    text_eq_iff w.1 t,
    text_eq_iff target t,
    text_eq_iff w.1 target,
  )

  finish_subscribe-Inv : Inv (finish_subscribe r conn_id target w now)
  unfolding finish_subscribe
  finish_subscribe-Inv =
      let q = subscribe_pane with_pane target conn_id in
      let pruned = prune-Pruned q is_gone w.1 conn_id in
      put_conn r (finish_subscribe r conn_id target w now) conn_id w.0 inv
        (pruned.configured ∙ unfold subscribe_pane in (pane_made.configured ∙ inv.configured))
        (pruned.conns ∙ unfold subscribe_pane in pane_made.conns) (watched.inv, watched.bounded)
        (subscribers_after (finish_subscribe r conn_id target w now) pruned)

pub subscribe-Inv :
    (r : RegistryActor) (conn_id target : Text) (now : ℕ)
    → Inv r
    → Inv (subscribe r conn_id target now)
unfolding subscribe
subscribe-Inv r conn_id target now inv = elim (empty-cases (trim_space conn_id)) [
  | inl e ↦ rw e inv
  | inr e ↦ elim (empty-cases (trim_space target)) [
    | inl blank ↦ rw (e.0, blank) inv
    | inr named ↦
        let made = get_or_create_conn-Inv r (trim_space conn_id) inv in
        let r1 = get_or_create_conn r (trim_space conn_id) in
        let c = conn_of r1 (trim_space conn_id) in
        let ok = conn_of_ok r1 (trim_space conn_id) made in
        let pane = trim_space target in
        simp (e.0, named.0)
          (finish_subscribe-Inv r1 (trim_space conn_id) pane
            (select_and_watch c pane active_pane_watch_limit) now made (trim_space_idem target)
            named.1
            (subst
              (λ t.
                W.Watched c t active_pane_watch_limit
                  (select_and_watch c pane active_pane_watch_limit))
              (trim_space_idem target)
              (W.select_and_watch-Watched c pane active_pane_watch_limit ok.0 ok.1
                (λ blank. named.1 (sym (trim_space_idem target) ∙ blank)))))
  ]
]

-- A registry that looks the same from a connection.
pub same_view :
    (r q : RegistryActor)
    → Inv r
    → q.configured ≡ r.configured
    → q.conns ≡ r.conns
    → ((t c : Text) → has_subscriber q t c ≡ has_subscriber r t c)
    → Inv q
same_view r q inv e n s = record {
  configured = e ∙ inv.configured;
  conns = λ k c h. inv.conns k c (sym (ap (λ m. m k) n) ∙ h);
  agree = λ t k. s t k ∙ inv.agree t k ∙ unfold watches in ap (λ m. watch_set_of (m k) t) (sym n);
}

pub get_or_create_pane-Inv :
    (r : RegistryActor) (target : Text) (now : ℕ) → Inv r → Inv (get_or_create_pane r target now)
unfolding get_or_create_pane
get_or_create_pane-Inv r target now inv = elim (Bool-cases (is_empty (trim_space target))) [
  | inl e ↦ rw e inv
  | inr e ↦
      let made = create_pane-Created r (trim_space target) now inv.configured in
      simp e (
        same_view r (create_pane r (trim_space target) now) inv made.configured made.conns
          made.subscribers)
]
